-- ===== src/Tunnel.antt =====
-- The two loops that both ends of a tunnel run (ghost-client/src/tunnel.rs and
-- ghost-server/src/handler.rs): one seals what it reads into frames, the other opens frames.
pub mod Wire
pub mod Send
pub mod Receive
pub mod Relay
pub mod Total
pub mod Authentic
pub mod Duplex
use reliz_protocol.Base.{
  ℕ, zero, suc, ◌+◌, ◌*◌, List, [], ◌∷◌, ◌++◌, Bool, true, false, Option, none, some, length, ltb,
  if◌then◌else◌,
}
use reliz_protocol.Base.{Outcome, ok, err, panic, ◌>>=◌}
use reliz_protocol.Base.Random.{Rng}
use reliz_protocol.Base.Bytes.{as_u16, be16}
use reliz_protocol.Base.Io.{
  Source, ReadExact, read_exact, got, unexpected_eof, failed, Read, chunk, read_error, Sink,
  write_all,
}
use reliz_protocol.Common.Types.{GhostFrame, TargetAddr, no_addr, ProtocolError}
use reliz_protocol.Common.Frame
use reliz_protocol.Crypto.{Aead, GhostCipher, CryptoError, encrypt, decrypt}

-- Why a loop ended. `waiting` is no end: the peer has sent nothing more yet. `no_fuel` is none
-- either: it is refuted below.
pub data Stop : Type 0 where
  finished : Stop
  read_failed : Stop
  too_large : Stop
  write_failed : Stop
  crypto_failed : Stop
  decode_failed : Stop
  panicked : Stop
  waiting : Stop
  no_fuel : Stop

pub record Padding : Type 0 where
  pub enable_padding : Bool
  pub max_padding_len : ℕ

pub record Progress (State : Type 0) : Type 0 where
  pub sink : Sink
  pub state : State
  pub stop : Option Stop

write_then : Sink × Bool → List ℕ → Sink × Bool
write_then (sink, true) bytes = write_all bytes sink
write_then (sink, false) bytes = (sink, false)

-- `write_all` of the length and `write_all` of the bytes; the second only after the first.
unfoldable pub write_message : List ℕ → Sink → Sink × Bool
unfolding write_then
write_message encrypted sink =
    write_then (write_all (be16 (as_u16 (length encrypted))) sink) encrypted

module _ (rng : Rng) (aead : Aead) (cipher : GhostCipher) (user_id : List ℕ) (pad : Padding) where
  open rng use {State}

  -- The frame that carries `payload`, padded where the configuration says so.
  unfoldable pub make_frame : TargetAddr → List ℕ → State → GhostFrame × State
  make_frame target payload s =
      let frame = Frame.new user_id target payload in
      if pad.enable_padding
      then Frame.with_random_padding rng pad.max_padding_len frame s
      else (frame, s)

  sent : Sink × Bool → State → Progress State
  sent (sink, true) s = record { sink = sink; state = s; stop = none }
  sent (sink, false) s = record { sink = sink; state = s; stop = some write_failed }

  transmit : Outcome CryptoError (List ℕ) → Sink → State → Progress State
  unfolding sent
  transmit (ok encrypted) sink s = sent (write_message encrypted sink) s
  transmit (err e) sink s = record { sink = sink; state = s; stop = some crypto_failed }
  transmit panic sink s = record { sink = sink; state = s; stop = some panicked }

  seal_frame : Outcome ProtocolError (List ℕ) → Sink → State → Progress State
  unfolding transmit
  seal_frame (ok frame_data) sink s =
      let (r, s1) = encrypt rng aead cipher frame_data s in transmit r sink s1
  seal_frame (err e) sink s = record { sink = sink; state = s; stop = some panicked }
  seal_frame panic sink s = record { sink = sink; state = s; stop = some panicked }

  -- One frame: encoded, encrypted and written.
  unfoldable pub send_frame : TargetAddr → List ℕ → Sink → State → Progress State
  unfolding seal_frame
  send_frame target payload sink s =
      let (frame, s1) = make_frame target payload s in seal_frame (Frame.encode frame) sink s1

  -- The loop that reads, seals and writes: the client's upload and the server's download.
  unfoldable pub send_loop : List Read → Sink → State → Progress State
  send_loop [] sink s = record { sink = sink; state = s; stop = some waiting }
  send_loop (read_error ∷ rs) sink s = record { sink = sink; state = s; stop = some read_failed }
  send_loop (chunk [] ∷ rs) sink s = record { sink = sink; state = s; stop = some finished }
  send_loop (chunk (b ∷ bs) ∷ rs) sink s =
      let p = send_frame no_addr (b ∷ bs) sink s in
      let more = send_loop rs p.sink p.state in elim p.stop [ none ↦ more | some r ↦ p ]

-- The size of `enc_buf`.
abbrev pub enc_buf_len : ℕ
enc_buf_len = 65536 + 256

-- What one round of the receiving loop came to.
pub data Round : Type 0 where
  again : Source → Sink → Round
  halt : Sink → Stop → Round

module _ (aead : Aead) (cipher : GhostCipher) where
  written : Source → Sink × Bool → Round
  written src (sink, true) = again src sink
  written src (sink, false) = halt sink write_failed

  deliver : List ℕ → Source → Sink → Round
  unfolding written
  deliver [] src sink = again src sink
  deliver (b ∷ bs) src sink = written src (write_all (b ∷ bs) sink)

  take_frame : Outcome ProtocolError GhostFrame → Source → Sink → Round
  unfolding deliver
  take_frame (ok frame) src sink = deliver frame.payload src sink
  take_frame (err e) src sink = halt sink decode_failed
  take_frame panic src sink = halt sink panicked

  open_frame : Outcome CryptoError (List ℕ) → Source → Sink → Round
  unfolding take_frame
  open_frame (ok plaintext) src sink = take_frame (Frame.decode plaintext) src sink
  open_frame (err e) src sink = halt sink crypto_failed
  open_frame panic src sink = halt sink panicked

  receive_body : ReadExact → Sink → Round
  unfolding open_frame
  receive_body (got encrypted src) sink = open_frame (decrypt aead cipher encrypted) src sink
  receive_body unexpected_eof sink = halt sink read_failed
  receive_body failed sink = halt sink read_failed

  -- `u16::from_be_bytes` of the two bytes that were read.
  frame_len : List ℕ → ℕ
  frame_len (hi ∷ lo ∷ _) = hi * 256 + lo
  frame_len _ = 0

  receive_len : ReadExact → Sink → Round
  unfolding receive_body frame_len
  receive_len (got len_buf src) sink =
      if ltb enc_buf_len (frame_len len_buf)
      then halt sink too_large
      else receive_body (read_exact (frame_len len_buf) src) sink
  receive_len unexpected_eof sink = halt sink finished
  receive_len failed sink = halt sink read_failed

  unfoldable pub receive_round : Source → Sink → Round
  unfolding receive_len
  receive_round src sink = receive_len (read_exact 2 src) sink

  -- The loop that reads, opens and writes: the server's upload and the client's download. Each
  -- round takes two bytes at least, so one more round than bytes is enough.
  unfoldable pub receive_rounds : ℕ → Source → Sink → Sink × Stop
  receive_rounds zero src sink = (sink, no_fuel)
  receive_rounds (suc fuel) src sink = elim (receive_round src sink) [
    | again src' sink' ↦ receive_rounds fuel src' sink'
    | halt sink' r ↦ (sink', r)
  ]

  unfoldable pub receive_loop : Source → Sink → Sink × Stop
  receive_loop src sink = receive_rounds (suc (length src.bytes)) src sink
