-- ===== src/Tunnel/Authentic.antt =====
-- Where the bytes come from that the receiving loop of a tunnel passes on.
pub mod Origin
use reliz_protocol.Tunnel.Authentic.Origin.{IsAuthentic, Genuine, idle, receive_round-Genuine}
use reliz_protocol.Base.{
  ℕ, zero, suc, ◌+◌, ◌*◌, ◌-◌, ◌/◌, ◌%◌, ◌<◌, ◌≤◌, ◌≡◌, ◌≢◌, refl, sym, ap, subst, ◌∙◌, List, [],
  ◌∷◌, ◌++◌, append-nil, append_assoc, length, length-append, take, take-nil, lt-of_leb,
  take-append_all, All, All-suffix, All-prefix, arith, ltb, leb, Bool-cases, le-of_leb, inl, inr,
  Outcome, ok, err, panic,
}
use mathlib.Core.Path.{subst₂}
use reliz_protocol.Base.Bytes.{IsByte, be16}
use reliz_protocol.Base.Io.{
  Source, ReadExact, read_exact, got, unexpected_eof, failed, Sink, write_all, read_exact-eq-got,
  read_exact-eq-eof,
}
use reliz_protocol.Common.Types.{GhostFrame, ProtocolError}
use reliz_protocol.Common.Frame
use reliz_protocol.Crypto.{Aead, GhostCipher, CryptoError, decrypt}
use reliz_protocol.Tunnel.{
  Stop, finished, write_failed, read_failed, crypto_failed, decode_failed, panicked, too_large,
  no_fuel, Round, again, halt, deliver, written, take_frame, open_frame, receive_body, receive_len,
  frame_len, receive_round, receive_rounds, receive_loop, enc_buf_len,
}
use reliz_protocol.Tunnel.Wire.{Carries, nothing, message, Carries-append}
use reliz_protocol.Tunnel.Receive.{extended, extended-nil, rounds_again, rounds_halt}

module _ (aead : Aead) (cipher : GhostCipher) where
  -- A message that was passed on, before a loop that goes on.
  before_rounds :
      (src src' : Source) (sink : Sink) (wire payload : List ℕ) (result : Sink × Stop)
      → Carries aead cipher wire payload
      → src.bytes ≡ wire ++ src'.bytes
      → length payload ≤ sink.room
      → IsAuthentic aead cipher src' (extended sink payload) result
      → IsAuthentic aead cipher src sink result
  before_rounds src src' sink wire payload result c came fit later = record {
    wire = wire ++ later.wire;
    payload = payload ++ later.payload;
    rest = later.rest;
    carries = Carries-append c later.carries;
    came = came ∙ ap (λ t. wire ++ t) later.came ∙ sym (append_assoc wire later.wire later.rest);
    passed_on =
        later.passed_on
        ∙ append_assoc sink.written payload (take (sink.room - length payload) later.payload)
        ∙ ap (λ t. sink.written ++ t) (sym (take-append_all sink.room payload later.payload fit));
    fits = λ e. omega (arith, later.fits e, length-append payload later.payload);
    full = λ e. omega (arith, later.full e, length-append payload later.payload);
    complete = later.complete;
  }

  receive_rounds-IsAuthentic :
      (fuel : ℕ) (src : Source) (sink : Sink)
      → All IsByte src.bytes
      → IsAuthentic aead cipher src sink (receive_rounds aead cipher fuel src sink)
  receive_rounds-IsAuthentic zero src sink bytes =
      unfold receive_rounds in idle aead cipher src sink no_fuel (λ e. cc e) (λ e. cc e)
  receive_rounds-IsAuthentic (suc fuel) src sink bytes =
      by_round (receive_round aead cipher src sink) refl
        (receive_round-Genuine aead cipher src sink bytes)
        (λ src' sink' bytes'. receive_rounds-IsAuthentic fuel src' sink' bytes')
    where
      by_round :
          (r : Round)
          → receive_round aead cipher src sink ≡ r
          → Genuine aead cipher src sink r
          → ((src' : Source) (sink' : Sink)
              → All IsByte src'.bytes
              → IsAuthentic aead cipher src' sink' (receive_rounds aead cipher fuel src' sink'))
          → IsAuthentic aead cipher src sink (receive_rounds aead cipher (suc fuel) src sink)
      by_round (again src' sink') e (wire, payload, c, came, fit, same) later =
          subst (IsAuthentic aead cipher src sink) (sym (rounds_again aead cipher fuel src sink e))
            (before_rounds src src' sink wire payload _ c came fit (
              subst
                (λ t. IsAuthentic aead cipher src' t (receive_rounds aead cipher fuel src' sink'))
                same
                (later src' sink'
                  (All-suffix IsByte wire src'.bytes (subst (λ t. All IsByte t) came bytes)))))
      by_round (halt sink' r) e genuine later =
          subst (IsAuthentic aead cipher src sink) (sym (rounds_halt aead cipher fuel src sink e))
            genuine

  -- The loop passes on nothing but what authentic messages carry. Whatever bytes arrive and
  -- however the loop ends, they began with a run of messages that decrypt under the cipher and
  -- decode; what the loop wrote is what these carry, in order, cut only where the sink had no
  -- more room, and that exactly when the loop ends with a failed write; and when it ends as
  -- finished, at most one byte was left that is of no message.
  pub receive_loop-IsAuthentic :
      (src : Source) (sink : Sink)
      → All IsByte src.bytes
      → IsAuthentic aead cipher src sink (receive_loop aead cipher src sink)
  receive_loop-IsAuthentic src sink bytes =
      unfold receive_loop in receive_rounds-IsAuthentic (suc (length src.bytes)) src sink bytes
