-- ===== src/Checks/Device.antt =====
-- The loop of the TUN device, from a SYN to the end of the device, at concrete inputs.
use reliz_protocol.Base.{◌-◌, refl, [], ◌∷◌, true, false, replicate, arith}
use reliz_protocol.Tun.Session
use reliz_protocol.Tun.Session.{Packet, answer}
use reliz_protocol.Tun.Processor.{key_of, process_packet, handle_tcp}
use reliz_protocol.Tun.Device.{
  joining, spawns, process, Running, started, read_packet, send_packet, write_packet, Reach, here,
  later, reads, closes, sends, drops_sender, writes,
}
use reliz_protocol.Tun.Device.Ending.{IsOpen, Reach-IsOpen}
use reliz_protocol.Tun.Device.Drain.{IsDrained, Reach-IsDrained}
use reliz_protocol.Checks.Processor.{syn_only, syn}

abbrev a_packet : Packet
a_packet = answer (key_of (syn 40000)) 0 8 false true true false false []

abbrev after_syn : Running
after_syn = read_packet syn_only (0x45 ∷ replicate 39 0) started

-- A session was spawned and has answered, the device is closed, the session has ended, and the
-- answer is on the device.
abbrev at_end : Running
at_end = write_packet syn_only a_packet [] true (
    let s = record (send_packet syn_only a_packet after_syn) { phase = joining } in
    record s { clones = s.clones - 1 })

at_end-Reach : Reach syn_only started at_end
unfolding read_packet send_packet spawns process process_packet handle_tcp key_of Session.get
    Session.insert Session.new Session.remove write_packet
at_end-Reach =
    later
      (later
        (later
          (later (later here (reads (0x45 ∷ replicate 39 0) refl refl))
            (sends a_packet (omega arith) refl))
          (closes refl refl))
        (drops_sender (omega arith) refl))
      (writes a_packet [] true refl refl refl)

Reach-IsOpen_example : IsOpen at_end
Reach-IsOpen_example = Reach-IsOpen syn_only at_end at_end-Reach

-- The session has sent two packets, and none is written.
abbrev two_queued : Running
two_queued = send_packet syn_only a_packet (send_packet syn_only a_packet after_syn)

two_queued-Reach : Reach syn_only started two_queued
unfolding read_packet send_packet spawns process process_packet handle_tcp key_of Session.get
    Session.insert Session.new Session.remove
two_queued-Reach =
    later
      (later (later here (reads (0x45 ∷ replicate 39 0) refl refl))
        (sends a_packet (omega arith) refl))
      (sends a_packet (omega arith) refl)

Reach-IsDrained_example : IsDrained syn_only two_queued (false ∷ true ∷ [])
unfolding read_packet send_packet
Reach-IsDrained_example =
    Reach-IsDrained syn_only two_queued (false ∷ true ∷ []) two_queued-Reach refl
