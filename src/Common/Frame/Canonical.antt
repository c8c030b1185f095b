-- ===== src/Common/Frame/Canonical.antt =====
-- What a buffer held from which a frame was decoded.
use reliz_protocol.Base.{
  ℕ, ◌<◌, ◌≡◌, ◌⊎◌, refl, sym, ap, subst, ◌∙◌, List, [], ◌∷◌, ◌++◌, length, ltb, leb, ◌&&◌,
  Bool-cases, inl, inr, All, All-suffix, arith, ◌==◌, ok,
}
use reliz_protocol.Base.Bytes.{IsByte, as_u8, as_u16, be16, get_u8, get_u16, copy_to_bytes}
use reliz_protocol.Base.Bytes.Read.{by_value, copy_to_bytes-eq-ok, get_u16-eq-ok, get_u16-IsU16}
use reliz_protocol.Common.Types.{GhostFrame, protocol_version, user_id_len}
use reliz_protocol.Common.Addr
use reliz_protocol.Common.Addr.Canonical.{decode-IsEncoded}
use reliz_protocol.Common.Frame.{
  encode, decode, check_version, decode_user, decode_rest, decode_payload, read_payload,
  decode_padding, read_padding,
}

-- The bytes of a frame up to its padding, with `tail` behind them.
abbrev pub frame_start : GhostFrame → List ℕ → List ℕ → List ℕ
frame_start f addr tail =
    f.version ∷ (f.user_id ++ (addr ++ (be16 (length f.payload) ++ (f.payload ++ tail))))

-- The padding with its length stands in front, or there is none in the frame.
abbrev pub IsPadded : List ℕ → List ℕ → Type 0
IsPadded tail padding =
    ((rest : List ℕ) × (tail ≡ as_u8 (length padding) ∷ (padding ++ rest))) ⊎ (padding ≡ [])

read_padding-eq-ok :
    (n : ℕ) (buf padding : List ℕ)
    → n < 256
    → read_padding n buf ≡ ok padding
    → IsPadded (n ∷ buf) padding
unfolding read_padding
read_padding-eq-ok n buf padding small e = elim (Bool-cases (ltb 0 n && leb n (length buf))) [
  | inl h ↦ by_value (copy_to_bytes n buf) _ padding (rw h at e) (λ r e1 f1.
      let (len, split) = copy_to_bytes-eq-ok n buf r.0 r.1 e1 in
      let same : r.0 ≡ padding = cc f1 in
      inl (
        r.1,
        (λ i. wrapped (length r.0) n len small i ∷ split i)
            ∙ ap (λ x. as_u8 (length x) ∷ (x ++ r.1)) same,
      ))
  | inr h ↦ inr (cc (rw h at e))
]
  where
    wrapped : (m n : ℕ) → m ≡ n → n < 256 → n ≡ as_u8 m
    wrapped m n e h = omega arith

decode_padding-eq-ok :
    (tail padding : List ℕ)
    → All IsByte tail
    → decode_padding tail ≡ ok padding
    → IsPadded tail padding
unfolding decode_padding get_u8
decode_padding-eq-ok [] padding h e = cc e
decode_padding-eq-ok (n ∷ buf) padding h e = elim (Bool-cases (ltb (length (n ∷ buf)) 1)) [
  | inl k ↦ cc (rw k at e)
  | inr k ↦ read_padding-eq-ok n buf padding h.0 (rw k at e)
]

decode_payload-eq-ok :
    (buf payload rest : List ℕ)
    → All IsByte buf
    → decode_payload buf ≡ ok (payload, rest)
    → (length payload < 65536) × (buf ≡ be16 (length payload) ++ (payload ++ rest))
unfolding decode_payload read_payload
decode_payload-eq-ok buf payload rest h e = elim (Bool-cases (ltb (length buf) 2)) [
  | inl k ↦ cc (rw k at e)
  | inr k ↦
      by_value (get_u16 buf) _ (payload, rest) (rw k at e)
        (λ r e1 f1. elim (Bool-cases (ltb (length r.1) r.0)) [
          | inl l ↦ cc (rw l at f1)
          | inr l ↦
              let (len, split) = copy_to_bytes-eq-ok r.0 r.1 payload rest (rw l at f1) in
              (
                omega (arith, len, get_u16-IsU16 buf r.0 r.1 h e1),
                get_u16-eq-ok buf r.0 r.1 h e1
                    ∙ ap (λ x. be16 x ++ r.1) (sym len)
                    ∙ ap (λ x. be16 (length payload) ++ x) split,
              )
        ])
]

-- The buffer begins with the encoding of the frame up to its padding.
pub record IsCanonical (buf : List ℕ) (f : GhostFrame) : Type 0 where
  pub addr : List ℕ
  pub tail : List ℕ
  pub encodes : encode f ≡ ok (frame_start f addr (as_u8 (length f.padding) ∷ f.padding))
  pub split : buf ≡ frame_start f addr tail
  pub padded : IsPadded tail f.padding

encode-eq-ok :
    (f : GhostFrame) (addr : List ℕ)
    → Addr.encode f.target ≡ ok addr
    → length f.payload < 65536
    → encode f ≡ ok (frame_start f addr (as_u8 (length f.padding) ∷ f.padding))
unfolding encode
encode-eq-ok f addr e small = rw (e, word (length f.payload) small) refl
  where
    word : (n : ℕ) → n < 65536 → as_u16 n ≡ n
    word n h = omega arith

decode_rest-IsCanonical :
    (version : ℕ) (user_id buf : List ℕ) (f : GhostFrame)
    → All IsByte buf
    → decode_rest version user_id buf ≡ ok f
    → IsCanonical (version ∷ (user_id ++ buf)) f
unfolding decode_rest
decode_rest-IsCanonical version user_id buf f h e = by_value (Addr.decode buf) _ f e (λ r1 e1 f1.
    by_value (decode_payload r1.1) _ f f1 (λ r2 e2 f2.
      by_value (decode_padding r2.1) _ f f2 (λ padding e3 f3.
        let is = decode-IsEncoded buf r1.0 r1.1 h e1 in
        let h1 = All-suffix IsByte is.bytes r1.1 (subst (All IsByte) is.split h) in
        let (small, split) = decode_payload-eq-ok r1.1 r2.0 r2.1 h1 e2 in
        let h2 = All-suffix IsByte r2.0 r2.1 (subst (All IsByte) split h1).1.1 in
        subst (IsCanonical (version ∷ (user_id ++ buf))) (cc f3) (record {
          addr = is.bytes;
          tail = r2.1;
          encodes =
              encode-eq-ok
                (record {
                  version = version;
                  user_id = user_id;
                  target = r1.0;
                  payload = r2.0;
                  padding = padding;
                })
                is.bytes is.encodes small;
          split = ap (λ x. version ∷ (user_id ++ x)) (is.split ∙ ap (λ x. is.bytes ++ x) split);
          padded = decode_padding-eq-ok r2.1 padding h2 e3;
        }))))

decode_user-IsCanonical :
    (version : ℕ) (buf : List ℕ) (f : GhostFrame)
    → All IsByte buf
    → decode_user version buf ≡ ok f
    → IsCanonical (version ∷ buf) f
unfolding decode_user
decode_user-IsCanonical version buf f h e = elim (Bool-cases (ltb (length buf) user_id_len)) [
  | inl k ↦ cc (rw k at e)
  | inr k ↦ by_value (copy_to_bytes user_id_len buf) _ f (rw k at e) (λ r e1 f1.
      let (len, split) = copy_to_bytes-eq-ok user_id_len buf r.0 r.1 e1 in
      subst (λ x. IsCanonical (version ∷ x) f) (sym split)
        (decode_rest-IsCanonical version r.0 r.1 f
          (All-suffix IsByte r.0 r.1 (subst (All IsByte) split h)) f1))
]

-- A frame has one encoding, but for its padding. When a buffer of bytes is decoded to a frame, the
-- frame has an encoding, and the buffer begins with it up to the length of the padding; behind
-- that stand the padding with its length, and what was not used, or the frame has no padding.
pub decode-IsCanonical :
    (buf : List ℕ) (f : GhostFrame) → All IsByte buf → decode buf ≡ ok f → IsCanonical buf f
unfolding decode check_version get_u8
decode-IsCanonical [] f h e = cc e
decode-IsCanonical (version ∷ buf) f h e = elim (Bool-cases (ltb (length (version ∷ buf)) 1)) [
  | inl k ↦ cc (rw k at e)
  | inr k ↦ elim (Bool-cases (version == protocol_version)) [
    | inl l ↦ decode_user-IsCanonical version buf f h.1 (rw (k, l) at e)
    | inr l ↦ cc (rw (k, l) at e)
  ]
]
