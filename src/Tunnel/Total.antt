-- ===== src/Tunnel/Total.antt =====
-- The receiving loop on any bytes at all.
use reliz_protocol.Base.{
  ℕ, zero, suc, ◌+◌, ◌*◌, ◌-◌, ◌<◌, ◌≤◌, ◌≡◌, ◌≢◌, refl, sym, subst, List, [], ◌∷◌, length,
  le-of_leb, take, drop, length-drop, length-take, All, All-take, All-drop, arith, Bool, true,
  false, ltb, le→ltb, leb, Bool-cases, inl, inr,
}
use reliz_protocol.Base.{Outcome, ok, err, panic}
use reliz_protocol.Base.Bytes.{IsByte}
use reliz_protocol.Base.Io.{
  Source, Ending, closed, broken, ReadExact, read_exact, got, unexpected_eof, failed, Sink,
  write_all,
}
use reliz_protocol.Common.Types.{GhostFrame, ProtocolError}
use reliz_protocol.Common.Frame
use reliz_protocol.Tunnel.Receive.{rounds_again, rounds_halt}
use reliz_protocol.Common.Frame.Total.{decode_frame-ne-panic}
use reliz_protocol.Crypto.{Aead, GhostCipher, CryptoError, decrypt}
use reliz_protocol.Tunnel.{
  Stop, finished, read_failed, write_failed, crypto_failed, decode_failed, Round, again, halt,
  deliver, take_frame, open_frame, receive_body, receive_len, frame_len, receive_round,
  receive_rounds, receive_loop, written, enc_buf_len,
}

-- The reasons for which a loop may end. The others do not arise.
abbrev pub IsEnd : Stop → Type 0
IsEnd finished = Unit {0}
IsEnd read_failed = Unit {0}
IsEnd write_failed = Unit {0}
IsEnd crypto_failed = Unit {0}
IsEnd decode_failed = Unit {0}
IsEnd _ = ⊥

-- A round goes on with at most `n` bytes, or ends for one of those reasons.
abbrev Fine : ℕ → Round → Type 0
Fine n (again src sink) = (length src.bytes ≤ n) × All IsByte src.bytes
Fine n (halt sink r) = IsEnd r

-- A round goes on with fewer than `n` bytes, or ends for one of those reasons.
abbrev Shorter : ℕ → Round → Type 0
Shorter n (again src sink) = (length src.bytes < n) × All IsByte src.bytes
Shorter n (halt sink r) = IsEnd r

Fine-Shorter : (n m : ℕ) (r : Round) → n < m → Fine n r → Shorter m r
Fine-Shorter n m (again src sink) h f = (omega (arith, f.0), f.1)
Fine-Shorter n m (halt sink r) h f = f

abbrev FineRead : ℕ → ReadExact → Type 0
FineRead n (got bytes src) =
    All IsByte bytes × (length bytes + length src.bytes ≤ n) × All IsByte src.bytes
FineRead n unexpected_eof = Unit {0}
FineRead n failed = Unit {0}

decrypt-ne-panic : (aead : Aead) (c : GhostCipher) (bytes : List ℕ) → decrypt aead c bytes ≢ panic
unfolding decrypt
decrypt-ne-panic aead c bytes = ground arith

read_exact-Fine :
    (n : ℕ) (src : Source) → All IsByte src.bytes → FineRead (length src.bytes) (read_exact n src)
read_exact-Fine n src h = elim (Bool-cases (leb n (length src.bytes))) [
  | inl e ↦
      unfold read_exact in
      rw e (
        All-take IsByte n src.bytes h,
        omega (arith, length-take n src.bytes, length-drop n src.bytes),
        All-drop IsByte n src.bytes h,
      )
  | inr e ↦ unfold read_exact in rw e (ground arith)
]

Fine-mono : (n m : ℕ) (r : Round) → n ≤ m → Fine n r → Fine m r
Fine-mono n m (again src sink) h f = (omega (arith, f.0), f.1)
Fine-mono n m (halt sink r) h f = f

module _ (aead : Aead) (cipher : GhostCipher) where
  written-Fine :
      (n : ℕ) (src : Source) (r : Sink × Bool)
      → length src.bytes ≤ n
      → All IsByte src.bytes
      → Fine n (written aead cipher src r)
  unfolding written
  written-Fine n src (sink, true) h b = (h, b)
  written-Fine n src (sink, false) h b = tt

  deliver-Fine :
      (n : ℕ) (payload : List ℕ) (src : Source) (sink : Sink)
      → length src.bytes ≤ n
      → All IsByte src.bytes
      → Fine n (deliver aead cipher payload src sink)
  deliver-Fine n [] src sink h b = unfold deliver in (h, b)
  deliver-Fine n (x ∷ xs) src sink h b =
      unfold deliver in written-Fine n src (write_all (x ∷ xs) sink) h b

  take_frame-Fine :
      (n : ℕ) (o : Outcome ProtocolError GhostFrame) (src : Source) (sink : Sink)
      → o ≢ panic
      → length src.bytes ≤ n
      → All IsByte src.bytes
      → Fine n (take_frame aead cipher o src sink)
  take_frame-Fine n (ok f) src sink p h b =
      unfold take_frame in deliver-Fine n f.payload src sink h b
  take_frame-Fine n (err x) src sink p h b = unfold take_frame in tt
  take_frame-Fine n panic src sink p h b = absurd (p refl)

  open_frame-Fine :
      (n : ℕ) (o : Outcome CryptoError (List ℕ)) (src : Source) (sink : Sink)
      → o ≢ panic
      → length src.bytes ≤ n
      → All IsByte src.bytes
      → Fine n (open_frame aead cipher o src sink)
  open_frame-Fine n (ok p) src sink ne h b =
      unfold open_frame in take_frame-Fine n (Frame.decode p) src sink (decode_frame-ne-panic p) h b
  open_frame-Fine n (err x) src sink ne h b = unfold open_frame in tt
  open_frame-Fine n panic src sink ne h b = absurd (ne refl)

  receive_body-Fine :
      (n : ℕ) (r : ReadExact) (sink : Sink)
      → FineRead n r
      → Fine n (receive_body aead cipher r sink)
  receive_body-Fine n (got bytes src) sink h =
      unfold receive_body in
      open_frame-Fine n (decrypt aead cipher bytes) src sink (decrypt-ne-panic aead cipher bytes)
        (omega arith) h.2
  receive_body-Fine n unexpected_eof sink h = unfold receive_body in tt
  receive_body-Fine n failed sink h = unfold receive_body in tt

  frame_len-lt :
      (bytes : List ℕ) → All IsByte bytes → ltb enc_buf_len (frame_len aead cipher bytes) ≡ false
  unfolding frame_len
  frame_len-lt [] h = refl
  frame_len-lt (a ∷ []) h = refl
  frame_len-lt (a ∷ b ∷ bytes) h = le→ltb enc_buf_len (a * 256 + b) (omega arith)

  receive_got :
      (n : ℕ) (bytes : List ℕ) (src : Source) (sink : Sink)
      → All IsByte bytes
      → All IsByte src.bytes
      → length src.bytes ≤ n
      → Fine n (receive_len aead cipher (got bytes src) sink)
  receive_got n bytes src sink hb hs le =
      unfold receive_len in
      rw (frame_len-lt bytes hb) (
        Fine-mono (length src.bytes) n _ le (
          receive_body-Fine (length src.bytes) (read_exact (frame_len aead cipher bytes) src) sink
            (read_exact-Fine (frame_len aead cipher bytes) src hs)))

  ended-Fine :
      (n : ℕ) (e : Ending) (sink : Sink)
      → Fine n (receive_len aead cipher (elim e [ closed ↦ unexpected_eof | broken ↦ failed ]) sink)
  unfolding receive_len
  ended-Fine n closed sink = tt
  ended-Fine n broken sink = tt

  ended-Shorter :
      (n : ℕ) (e : Ending) (sink : Sink)
      → Shorter n
          (receive_len aead cipher (elim e [ closed ↦ unexpected_eof | broken ↦ failed ]) sink)
  unfolding receive_len
  ended-Shorter n closed sink = tt
  ended-Shorter n broken sink = tt

  -- Each round that goes on has taken a byte at least.
  receive_round-Shorter :
      (src : Source) (sink : Sink)
      → All IsByte src.bytes
      → Shorter (length src.bytes) (receive_round aead cipher src sink)
  receive_round-Shorter src sink h = elim (Bool-cases (leb 2 (length src.bytes))) [
    | inl e ↦
        unfold receive_round read_exact in
        rw e (
          Fine-Shorter (length src.bytes - 1) (length src.bytes) _
            (omega (arith, le-of_leb 2 (length src.bytes) e))
            (receive_got (length src.bytes - 1) (take 2 src.bytes)
              (record src { bytes = drop 2 src.bytes }) sink (All-take IsByte 2 src.bytes h)
              (All-drop IsByte 2 src.bytes h)
              (omega (arith, length-drop 2 src.bytes, le-of_leb 2 (length src.bytes) e))))
    | inr e ↦
        unfold receive_round read_exact in rw e (ended-Shorter (length src.bytes) src.ending sink)
  ]

  receive_rounds-IsEnd :
      (fuel : ℕ) (src : Source) (sink : Sink)
      → All IsByte src.bytes
      → length src.bytes < fuel
      → IsEnd (receive_rounds aead cipher fuel src sink).1
  receive_rounds-IsEnd zero src sink h small = absurd (omega arith)
  receive_rounds-IsEnd (suc fuel) src sink h small =
      by_round (receive_round aead cipher src sink) refl (receive_round-Shorter src sink h)
        (λ src' sink' h' small'. receive_rounds-IsEnd fuel src' sink' h' small')
    where
      by_round :
          (r : Round)
          → receive_round aead cipher src sink ≡ r
          → Shorter (length src.bytes) r
          → ((src' : Source) (sink' : Sink)
              → All IsByte src'.bytes
              → length src'.bytes < fuel
              → IsEnd (receive_rounds aead cipher fuel src' sink').1)
          → IsEnd (receive_rounds aead cipher (suc fuel) src sink).1
      by_round (again src' sink') e shorter later =
          subst (λ t. IsEnd t.1) (sym (rounds_again aead cipher fuel src sink e))
            (later src' sink' shorter.1 (omega arith))
      by_round (halt sink' r) e shorter later =
          subst (λ t. IsEnd t.1) (sym (rounds_halt aead cipher fuel src sink e)) shorter

  -- Whatever bytes arrive and however the stream ends, the loop ends: at the end of the stream, or
  -- with a failed read, write, decryption or decoding. It needs no more rounds than it is given,
  -- never panics, and the test for a frame beyond the buffer never fires.
  pub receive_loop-IsEnd :
      (src : Source) (sink : Sink)
      → All IsByte src.bytes
      → IsEnd (receive_loop aead cipher src sink).1
  receive_loop-IsEnd src sink h =
      unfold receive_loop in receive_rounds-IsEnd (suc (length src.bytes)) src sink h (omega arith)
