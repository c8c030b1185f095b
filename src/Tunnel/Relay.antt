-- ===== src/Tunnel/Relay.antt =====
-- One direction of a tunnel from end to end: the loop that seals, the wire, the loop that opens.
use reliz_protocol.Base.{ℕ, ◌*◌, ◌≤◌, ◌≡◌, subst, sym, List, [], length, All}
use reliz_protocol.Base.{Option}
use reliz_protocol.Base.Random.{Rng}
use reliz_protocol.Base.Io.{Read, Sink, Ending}
use reliz_protocol.Crypto.{Aead, GhostCipher}
use reliz_protocol.Tunnel.{Padding, send_loop, receive_loop}
use reliz_protocol.Tunnel.Receive.{extended, ended, receive_loop-Carries}
use reliz_protocol.Tunnel.Send.{IsSession, IsRead, max_message}
use reliz_protocol.Tunnel.Send.Loop.{read_bytes, read_end, send_loop-IsStream}

-- A connection that has carried nothing and takes `room` bytes.
abbrev pub fresh : ℕ → Sink
fresh room = record { written = []; room = room }

module _ (rng : Rng) (aead : Aead) (cipher : GhostCipher) (user_id : List ℕ) (pad : Padding) where
  -- What one end reads from its application, in whatever pieces, the other end writes to its own:
  -- the same bytes in the same order, no more and no fewer. This needs a session's user id and
  -- padding, reads that fit the buffer of 8192 bytes, one cipher at both ends, and connections
  -- that take what is written. Both loops end as their inputs do.
  pub relay :
      (reads : List Read) (s : rng.State) (room : ℕ) (e : Ending) (target : Sink)
      → IsSession user_id pad
      → All IsRead reads
      → max_message * length reads ≤ room
      → length (read_bytes reads) ≤ target.room
      → let p = send_loop rng aead cipher user_id pad reads (fresh room) s in
        (p.stop ≡ Option.some (read_end reads))
        × (receive_loop aead cipher (record { bytes = p.sink.written; ending = e }) target
            ≡ (extended target (read_bytes reads), ended e))
  relay reads s room e target session reads_fit enough holds =
      let stream =
        send_loop-IsStream rng aead cipher user_id pad session reads (fresh room) s reads_fit
          enough in
      (
        stream.ended,
        subst
            (λ t.
              receive_loop aead cipher (record { bytes = t.written; ending = e }) target
              ≡ (extended target (read_bytes reads), ended e))
            (sym stream.written) (receive_loop-Carries aead cipher e target stream.carries holds),
      )
