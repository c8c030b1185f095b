-- ===== src/Tunnel/Authentic/Origin.antt =====
-- What one round of the receiving loop passes on, and where it comes from.
use reliz_protocol.Base.{
  ℕ, ◌+◌, ◌*◌, ◌/◌, ◌%◌, ◌<◌, ◌≤◌, ◌≡◌, ◌≢◌, refl, sym, ap, subst, ◌∙◌, List, [], ◌∷◌, ◌++◌,
  append-nil, length, take, take-nil, lt-of_leb, All, All-prefix, arith, ltb, leb, Bool-cases,
  le-of_leb, inl, inr, Outcome, ok, err, panic,
}
use mathlib.Core.Path.{subst₂}
use reliz_protocol.Base.Bytes.{IsByte, be16}
use reliz_protocol.Base.Io.{
  Source, ReadExact, read_exact, got, unexpected_eof, failed, Sink, write_all, read_exact-eq-got,
  read_exact-eq-eof,
}
use reliz_protocol.Common.Types.{GhostFrame, ProtocolError}
use reliz_protocol.Common.Frame
use reliz_protocol.Crypto.{Aead, GhostCipher, CryptoError, decrypt}
use reliz_protocol.Tunnel.{
  Stop, finished, write_failed, read_failed, crypto_failed, decode_failed, panicked, too_large,
  Round, again, halt, deliver, written, take_frame, open_frame, receive_body, receive_len,
  frame_len, receive_round, enc_buf_len,
}
use reliz_protocol.Tunnel.Wire.{Carries, nothing, message}
use reliz_protocol.Tunnel.Receive.{extended, extended-nil}

module _ (aead : Aead) (cipher : GhostCipher) where
  -- The bytes were a run of messages and what was not used. What the messages carry was passed
  -- on in order, up to the room that there was; nothing else was.
  pub record IsAuthentic (src : Source) (sink : Sink) (result : Sink × Stop) : Type 0 where
    pub wire : List ℕ
    pub payload : List ℕ
    pub rest : List ℕ
    pub carries : Carries aead cipher wire payload
    pub came : src.bytes ≡ wire ++ rest
    pub passed_on : result.0.written ≡ sink.written ++ take sink.room payload
    pub fits : result.1 ≢ write_failed → length payload ≤ sink.room
    pub full : result.1 ≡ write_failed → sink.room < length payload
    pub complete : result.1 ≡ finished → length rest < 2

  abbrev pub Genuine : Source → Sink → Round → Type 0
  Genuine src sink (again src' sink') =
      (wire : List ℕ) × (payload : List ℕ) × Carries aead cipher wire payload
      × (src.bytes ≡ wire ++ src'.bytes)
      × (length payload ≤ sink.room)
      × (sink' ≡ extended sink payload)
  Genuine src sink (halt sink' r) = IsAuthentic src sink (sink', r)

  one :
      (enc plain : List ℕ) (f : GhostFrame)
      → length enc < 65536
      → decrypt aead cipher enc ≡ ok plain
      → Frame.decode plain ≡ ok f
      → Carries aead cipher (be16 (length enc) ++ enc) f.payload
  one enc plain f small opens decodes =
      subst₂ (Carries aead cipher) (ap (λ t. be16 (length enc) ++ t) (append-nil enc))
        (append-nil f.payload) (message enc plain f small opens decodes nothing)

  -- A loop that ends at once has passed on nothing.
  pub idle :
      (src : Source) (sink : Sink) (r : Stop)
      → r ≢ write_failed
      → (r ≡ finished → length src.bytes < 2)
      → IsAuthentic src sink (sink, r)
  idle src sink r other short = record {
    wire = [];
    payload = [];
    rest = src.bytes;
    carries = nothing;
    came = refl;
    passed_on =
        sym (append-nil sink.written) ∙ ap (λ t. sink.written ++ t) (sym (take-nil sink.room));
    fits = λ _. omega arith;
    full = λ e. absurd (other e);
    complete = short;
  }

  -- The last write took what there was room for.
  cut :
      (sink : Sink) (wire payload : List ℕ) (src src' : Source)
      → Carries aead cipher wire payload
      → src.bytes ≡ wire ++ src'.bytes
      → sink.room < length payload
      → IsAuthentic src sink
          (record { written = sink.written ++ take sink.room payload; room = 0 }, write_failed)
  cut sink wire payload src src' c came long = record {
    wire = wire;
    payload = payload;
    rest = src'.bytes;
    carries = c;
    came = came;
    passed_on = refl;
    fits = λ e. absurd (e refl);
    full = λ _. long;
    complete = λ e. cc e;
  }

  deliver-Genuine :
      (wire payload : List ℕ) (src src' : Source) (sink : Sink)
      → Carries aead cipher wire payload
      → src.bytes ≡ wire ++ src'.bytes
      → Genuine src sink (deliver aead cipher payload src' sink)
  deliver-Genuine wire [] src src' sink c came =
      unfold deliver in (wire, [], c, came, omega arith, extended-nil sink)
  deliver-Genuine wire (b ∷ bs) src src' sink c came =
      elim (Bool-cases (leb (length (b ∷ bs)) sink.room)) [
        | inl h ↦
            unfold deliver written write_all in
            rw h (wire, b ∷ bs, c, came, le-of_leb (length (b ∷ bs)) sink.room h, refl)
        | inr h ↦
            unfold deliver written write_all in
            rw h (cut sink wire (b ∷ bs) src src' c came (lt-of_leb (length (b ∷ bs)) sink.room h))
      ]

  take_frame-Genuine :
      (wire : List ℕ) (o : Outcome ProtocolError GhostFrame) (src src' : Source) (sink : Sink)
      → ((f : GhostFrame) → o ≡ ok f → Carries aead cipher wire f.payload)
      → src.bytes ≡ wire ++ src'.bytes
      → Genuine src sink (take_frame aead cipher o src' sink)
  unfolding take_frame
  take_frame-Genuine wire (ok f) src src' sink c came =
      deliver-Genuine wire f.payload src src' sink (c f refl) came
  take_frame-Genuine wire (err x) src src' sink c came =
      idle src sink decode_failed (λ e. cc e) (λ e. cc e)
  take_frame-Genuine wire panic src src' sink c came =
      idle src sink panicked (λ e. cc e) (λ e. cc e)

  open_frame-Genuine :
      (enc : List ℕ) (o : Outcome CryptoError (List ℕ)) (src src' : Source) (sink : Sink)
      → length enc < 65536
      → decrypt aead cipher enc ≡ o
      → src.bytes ≡ (be16 (length enc) ++ enc) ++ src'.bytes
      → Genuine src sink (open_frame aead cipher o src' sink)
  unfolding open_frame
  open_frame-Genuine enc (ok plain) src src' sink small opens came =
      take_frame-Genuine (be16 (length enc) ++ enc) (Frame.decode plain) src src' sink
        (λ f e. one enc plain f small opens e) came
  open_frame-Genuine enc (err x) src src' sink small opens came =
      idle src sink crypto_failed (λ e. cc e) (λ e. cc e)
  open_frame-Genuine enc panic src src' sink small opens came =
      idle src sink panicked (λ e. cc e) (λ e. cc e)

  -- The two bytes of a length and what they announce are a message.
  prefix_bytes :
      (hi lo : ℕ) (enc : List ℕ) {all rest : List ℕ} (src : Source)
      → hi < 256
      → lo < 256
      → length enc ≡ hi * 256 + lo
      → all ≡ hi ∷ lo ∷ rest
      → rest ≡ enc ++ src.bytes
      → all ≡ (be16 (length enc) ++ enc) ++ src.bytes
  prefix_bytes hi lo enc src high low size came split =
      came
      ∙ ap (λ t. hi ∷ lo ∷ t) split
      ∙ ap (λ t. t ∷ lo ∷ (enc ++ src.bytes)) (quotient hi lo (length enc) low size)
      ∙ ap (λ t. (length enc / 256) ∷ t ∷ (enc ++ src.bytes))
          (remainder hi lo (length enc) low size)
    where
      quotient : (hi lo n : ℕ) → lo < 256 → n ≡ hi * 256 + lo → hi ≡ n / 256
      quotient hi lo n low size = omega arith

      remainder : (hi lo n : ℕ) → lo < 256 → n ≡ hi * 256 + lo → lo ≡ n % 256
      remainder hi lo n low size = omega arith

  receive_body-Genuine :
      (hi lo : ℕ) (r : ReadExact) (src src' : Source) (sink : Sink)
      → hi < 256
      → lo < 256
      → read_exact (hi * 256 + lo) src' ≡ r
      → src.bytes ≡ hi ∷ lo ∷ src'.bytes
      → Genuine src sink (receive_body aead cipher r sink)
  unfolding receive_body
  receive_body-Genuine hi lo (got enc src'') src src' sink high low reads came =
      let (size, split) = read_exact-eq-got (hi * 256 + lo) src' enc src'' reads in
      open_frame-Genuine enc (decrypt aead cipher enc) src src'' sink (omega arith) refl
        (prefix_bytes hi lo enc src'' high low size came split)
  receive_body-Genuine hi lo unexpected_eof src src' sink high low reads came =
      idle src sink read_failed (λ e. cc e) (λ e. cc e)
  receive_body-Genuine hi lo failed src src' sink high low reads came =
      idle src sink read_failed (λ e. cc e) (λ e. cc e)

  wrong_size :
      (bytes : List ℕ) (src src' : Source)
      → read_exact 2 src ≡ got bytes src'
      → length bytes ≢ 2
      → ⊥
  wrong_size bytes src src' reads h = h (read_exact-eq-got 2 src bytes src' reads).0

  receive_len-Genuine :
      (r : ReadExact) (src : Source) (sink : Sink)
      → All IsByte src.bytes
      → read_exact 2 src ≡ r
      → Genuine src sink (receive_len aead cipher r sink)
  unfolding receive_len frame_len
  receive_len-Genuine (got [] src') src sink bytes reads =
      absurd (wrong_size [] src src' reads (λ e. omega (arith, e)))
  receive_len-Genuine (got (a ∷ []) src') src sink bytes reads =
      absurd (wrong_size (a ∷ []) src src' reads (λ e. omega (arith, e)))
  receive_len-Genuine (got (hi ∷ lo ∷ []) src') src sink bytes reads =
      elim (Bool-cases (ltb enc_buf_len (hi * 256 + lo))) [
        | inl h ↦ rw h (idle src sink too_large (λ e. cc e) (λ e. cc e))
        | inr h ↦
            let came = (read_exact-eq-got 2 src (hi ∷ lo ∷ []) src' reads).1 in
            let small =
              All-prefix IsByte (hi ∷ lo ∷ []) src'.bytes (subst (λ t. All IsByte t) came bytes) in
            rw h (
              receive_body-Genuine hi lo (read_exact (hi * 256 + lo) src') src src' sink small.0
                small.1.0 refl came)
      ]
  receive_len-Genuine (got (a ∷ b ∷ d ∷ bs) src') src sink bytes reads =
      absurd (wrong_size (a ∷ b ∷ d ∷ bs) src src' reads (λ e. omega (arith, e)))
  receive_len-Genuine unexpected_eof src sink bytes reads =
      idle src sink finished (λ e. cc e) (λ _. read_exact-eq-eof 2 src reads)
  receive_len-Genuine failed src sink bytes reads =
      idle src sink read_failed (λ e. cc e) (λ e. cc e)

  pub receive_round-Genuine :
      (src : Source) (sink : Sink)
      → All IsByte src.bytes
      → Genuine src sink (receive_round aead cipher src sink)
  unfolding receive_round
  receive_round-Genuine src sink bytes = receive_len-Genuine (read_exact 2 src) src sink bytes refl
