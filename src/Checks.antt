-- ===== src/Checks.antt =====
-- Runs of the model on concrete inputs, and each theorem at a concrete input.
mod Instances
mod Common
mod Canonical
mod Tunnel
mod Client
mod Tun
mod Session
mod Admitted
mod Stealth
mod Reality
mod Guarded
mod Pinning
mod Processor
mod Device
mod Packets
mod Ja4
mod Duplex
mod Bridge
mod BridgeTun
mod Config
