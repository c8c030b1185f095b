-- ===== src/Lib.antt =====
-- The Reliz (Ghost) protocol: a SOCKS5 client hides the traffic of its applications in encrypted,
-- padded frames, and a server opens the frames and talks to the targets.
--
-- The program's parts and the files that model them:
--   ghost-common/src/lib.rs       Common: Config (the configurations), Types (TargetAddr, GhostFrame,
--                                 ProtocolError), Addr and Frame (encode and decode). Laws and
--                                 Canonical hold the round trips, Total that no bytes make a decoder
--                                 panic.
--   ghost-common/src/stealth.rs   Stealth: padding strategies, fragments, sizes.
--   ghost-crypto/src/lib.rs       Crypto: GhostCipher, derive_key, and their laws.
--   ghost-client/src/tunnel.rs,   Tunnel: the loop that seals what it reads (the client's upload and
--   ghost-server/src/handler.rs   the server's download) and the loop that opens frames (the
--                                 server's upload and the client's download). Wire says which bytes
--                                 carry which payload; Send, Receive and Relay prove it of the loops,
--                                 Total says how the receiving loop ends, Authentic which bytes it
--                                 passes on. Duplex is two ends that run both loops at the same time
--                                 and stop with the first (select!).
--   ghost-client/src/lib.rs       Client/Socks: handle_socks5_client and socks5_reply. Runs says how
--                                 it answers, Heard what it must have been sent.
--   ghost-client/src/tunnel.rs    Client/UserId: parse_user_id and parse_hex_32; Client/Connect and
--                                 Client/Proxy: proxy_through_ghost.
--   ghost-client/src/fragment.rs  Client/Fragment: FragmentedStream; Whole: fragmented_write.
--   ghost-server/src/handler.rs   Server/Handler: handle_connection and resolve_target, in Opening
--                                 and Admitted what it accepts; Server/Start: the state
--                                 that ghost-server/src/lib.rs makes for it.
--   ghost-client/src/tunnel.rs,   Client/Reality: connect_reality behind the TLS handshake;
--                                 Client/Pinning: the TLS configuration, its verifier and
--                                 connect_reality with the handshake;
--   ghost-server/src/lib.rs       Server/Reality: detect_ghost_auth and run_with_reality behind it.
--   ghost-reality/src/
--     reality_server.rs           Reality: detect_ghost_auth and handle_tls_connection.
--   ghost-reality/src/
--     tls_wrapper.rs              Reality/TlsWrapper: authenticate, and its run against the server.
--   ghost-reality/src/ja4.rs      Reality/Ja4: fingerprints of profiles and of a ClientHello.
--   ghost-tun/src/lib.rs          Tun/Processor: process_packet and handle_tcp. Flow is the machine of
--                                 one flow, which the processor implements. Tun/Device: run, with the
--                                 task that writes to the device and the channel between them.
--   ghost-tun/src/socks5.rs       Tun/Socks5: the SOCKS5 client of the TUN device.
--   ghost-tun/src/tcp_session.rs  Tun/Session: the NAT table and the packets of a TCP session;
--                                 Packets: the bytes of a packet.
--   ghost_flutter/rust/src/api.rs Bridge: start_reliz_proxy and stop_proxy with the tasks they spawn;
--                                 Bridge/Tun: start_tun and stop_tun.
-- EndToEnd puts the client and the server together: Both in both directions at the same time, Masked
-- in Reality mode. Base has what they share, Conn the connection of a handler that reads and
-- answers, Checks the runs at concrete inputs.
--
-- How the code is read:
--   - Bytes are numbers with the predicate IsByte, words wrap where the code casts. A string is the
--     list of its characters, with UTF-8 as functions of its own (Base/Utf8).
--   - A fallible function gives an Outcome: a value, an error or a panic. An error of anyhow keeps
--     the fixed part of its message.
--   - A stream that is read is the bytes that will come and how they end: closed, or broken by an
--     error. What a read returns at a time is a list of chunks. A stream that is written holds the
--     bytes written and the room left before writes fail.
--   - The random generator (Base/Random), the AEAD with HKDF (Crypto), the network
--     (Server/Handler), the parsers of packets (Tun/Processor) and of TLS (Reality/Ja4), the builder
--     of packets (Tun/Session/Packets) and rustls with sha2 (Client/Pinning) are not code of the
--     repository: they are records of operations or functions, where a theorem needs it with the
--     laws that their documentation gives. Checks has concrete ones.
--   - The receiving loop is a recursion on fuel, one more than the bytes that come. Each round takes
--     two bytes at least, and Tunnel/Total proves that the fuel never runs out.
--   - Two ends of a session that run at the same time are a step relation: a step is one round of one
--     loop, which takes a whole message when it receives. A loop that select! ends inside a round is
--     not a step of its own.
--   - The loop of the TUN device, its writing task and the sessions are a step relation too: a step
--     reads or writes one packet, or makes or drops a sender of the channel.
--   - The Flutter bridge is called from one thread. What a call does between its waits is one step,
--     and so is each store of a task. A task that was aborted dies at its next wait, and may run on
--     until then.
--
-- Not modelled: TLS and the making of certificates, the accept loops, logging, command lines, the
-- parsing and printing of packets, and the reads and writes of the TUN device themselves.
pub mod Base
pub mod Common
pub mod Stealth
pub mod Crypto
pub mod Conn
pub mod Tunnel
pub mod Client
pub mod Server
pub mod Reality
pub mod Tun
pub mod Bridge
pub mod EndToEnd
pub mod Checks
