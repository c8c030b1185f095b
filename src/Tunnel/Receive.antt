-- ===== src/Tunnel/Receive.antt =====
-- What the receiving loop does with a stream of messages, and with any bytes.
use reliz_protocol.Base.{
  ℕ, zero, suc, ◌+◌, ◌-◌, ◌<◌, ◌≤◌, ◌≡◌, refl, sym, ap, ◌∙◌, List, [], ◌∷◌, ◌++◌, append_assoc,
  append-nil, length, length-append, arith, le→ltb,
}
use reliz_protocol.Base.{ok}
use reliz_protocol.Base.Bytes.{be16}
use reliz_protocol.Base.Io.{
  Source, Ending, closed, broken, read_exact, Sink, read_exact-append, write_all_lem,
}
use reliz_protocol.Common.Types.{GhostFrame}
use reliz_protocol.Common.Frame
use reliz_protocol.Crypto.{Aead, GhostCipher, decrypt}
use reliz_protocol.Tunnel.{
  Stop, finished, read_failed, again, halt, deliver, frame_len, receive_round, receive_rounds,
  receive_loop, enc_buf_len,
}
use reliz_protocol.Tunnel.Wire.{Carries, nothing, message}

-- How the loop ends at the end of its stream.
abbrev pub ended : Ending → Stop
ended closed = finished
ended broken = read_failed

-- The sink after `bytes` more.
abbrev pub extended : Sink → List ℕ → Sink
extended s bytes = record { written = s.written ++ bytes; room = s.room - length bytes }

minus-zero : (n : ℕ) → n ≡ n - 0
minus-zero n = omega arith

minus-minus : (n a b : ℕ) → n - a - b ≡ n - (a + b)
minus-minus n a b = omega arith

pub extended-nil : (s : Sink) → s ≡ extended s []
extended-nil s = λ i. record { written = sym (append-nil s.written) i; room = minus-zero s.room i }

pub extended-append : (s : Sink) (a b : List ℕ) → extended (extended s a) b ≡ extended s (a ++ b)
extended-append s a b = λ i. record {
  written = append_assoc s.written a b i;
  room =
      (minus-minus s.room (length a) (length b) ∙ ap (λ n. s.room - n) (sym (length-append a b))) i;
}

module _ (aead : Aead) (cipher : GhostCipher) where
  deliver_lem :
      (payload : List ℕ) (src : Source) (sink : Sink)
      → length payload ≤ sink.room
      → deliver aead cipher payload src sink ≡ again src (extended sink payload)
  deliver_lem [] src sink h = unfold deliver in ap (again src) (extended-nil sink)
  deliver_lem (b ∷ bs) src sink h = unfold deliver in rw (write_all_lem (b ∷ bs) sink h)

  frame_len_lem : (n : ℕ) → frame_len aead cipher (be16 n) ≡ n
  frame_len_lem n = unfold frame_len in omega arith

  pub receive_message :
      (enc plain : List ℕ) (f : GhostFrame) (wire : List ℕ) (e : Ending) (sink : Sink)
      → length enc < 65536
      → decrypt aead cipher enc ≡ ok plain
      → Frame.decode plain ≡ ok f
      → length f.payload ≤ sink.room
      → receive_round aead cipher
          (record { bytes = be16 (length enc) ++ (enc ++ wire); ending = e })
          sink
        ≡ again (record { bytes = wire; ending = e }) (extended sink f.payload)
  receive_message enc plain f wire e sink small opens decodes room =
      unfold receive_round in
      rw
        (
          read_exact-append 2 (be16 (length enc)) (enc ++ wire) e refl,
          frame_len_lem (length enc),
          le→ltb enc_buf_len (length enc) (omega arith),
          read_exact-append (length enc) enc wire e refl,
          opens,
          decodes,
        )
        (deliver_lem f.payload (record { bytes = wire; ending = e }) sink room)

  receive_nothing :
      (e : Ending) (sink : Sink)
      → receive_round aead cipher (record { bytes = []; ending = e }) sink ≡ halt sink (ended e)
  receive_nothing closed sink = unfold receive_round read_exact in refl
  receive_nothing broken sink = unfold receive_round read_exact in refl

  pub rounds_again :
      (fuel : ℕ) (src : Source) (sink : Sink) {src' : Source} {sink' : Sink}
      → receive_round aead cipher src sink ≡ again src' sink'
      → receive_rounds aead cipher (suc fuel) src sink ≡ receive_rounds aead cipher fuel src' sink'
  unfolding receive_rounds
  rounds_again fuel src sink e = rw (e, receive_rounds)

  pub rounds_halt :
      (fuel : ℕ) (src : Source) (sink : Sink) {sink' : Sink} {r : Stop}
      → receive_round aead cipher src sink ≡ halt sink' r
      → receive_rounds aead cipher (suc fuel) src sink ≡ (sink', r)
  unfolding receive_rounds
  rounds_halt fuel src sink e = rw (e, receive_rounds)

  -- A stream of messages is delivered to the last byte, in order.
  pub receive_rounds-Carries :
      (fuel : ℕ) (e : Ending) (sink : Sink) {wire payload : List ℕ}
      → Carries aead cipher wire payload
      → length wire < fuel
      → length payload ≤ sink.room
      → receive_rounds aead cipher fuel (record { bytes = wire; ending = e }) sink
        ≡ (extended sink payload, ended e)
  receive_rounds-Carries zero e sink c h room = absurd (omega arith)
  receive_rounds-Carries (suc fuel) e sink nothing h room =
      rounds_halt fuel _ _ (receive_nothing e sink) ∙ ap (λ t. (t, ended e)) (extended-nil sink)
  receive_rounds-Carries (suc fuel) e sink
        (message {wire = wire} {payload = payload} enc plain f small opens decodes rest) h room =
      rounds_again fuel _ _ (
        receive_message enc plain f wire e sink small opens decodes
          (omega (arith, length-append f.payload payload)))
      ∙ receive_rounds-Carries fuel e (extended sink f.payload) rest
          (omega (arith, length-append enc wire)) (omega (arith, length-append f.payload payload))
      ∙ ap (λ t. (t, ended e)) (extended-append sink f.payload payload)

  pub receive_loop-Carries :
      {wire payload : List ℕ} (e : Ending) (sink : Sink)
      → Carries aead cipher wire payload
      → length payload ≤ sink.room
      → receive_loop aead cipher (record { bytes = wire; ending = e }) sink
        ≡ (extended sink payload, ended e)
  receive_loop-Carries {wire} e sink c room =
      unfold receive_loop in receive_rounds-Carries (suc (length wire)) e sink c (omega arith) room
