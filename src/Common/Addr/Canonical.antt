-- ===== src/Common/Addr/Canonical.antt =====
-- What a buffer held from which an address was decoded.
use reliz_protocol.Base.{
  ℕ, ◌+◌, ◌<◌, ◌≡◌, refl, sym, ap, subst, ◌∙◌, List, [], ◌∷◌, ◌++◌, append_assoc, length, ltb,
  le→ltb, ==_iff, Bool-cases, inl, inr, Option, none, some, All, All-suffix, arith, ◌==◌, Outcome,
  ok,
}
use reliz_protocol.Base.Bytes.{IsByte, as_u8, be16, get_u8, get_u16, copy_to_bytes}
use reliz_protocol.Base.Bytes.Read.{by_value, copy_to_bytes-eq-ok, get_u16-eq-ok}
use reliz_protocol.Base.Utf8.{Str, utf8, from_utf8}
use reliz_protocol.Base.Utf8.Sound.{utf8-from_utf8}
use reliz_protocol.Common.Types.{ProtocolError, TargetAddr, domain}
use reliz_protocol.Common.Addr.{
  encode, decode, decode_as, decode_ipv4, decode_ipv6, decode_domain, decode_name, text_of,
}

-- The bytes that were used encode the address.
pub record IsEncoded (buf : List ℕ) (t : TargetAddr) (rest : List ℕ) : Type 0 where
  pub bytes : List ℕ
  pub encodes : encode t ≡ ok bytes
  pub split : buf ≡ bytes ++ rest

abbrev decoded : TargetAddr → List ℕ → Outcome ProtocolError (TargetAddr × List ℕ)
decoded t rest = ok (t, rest)

moved :
    {buf : List ℕ} {t u : TargetAddr} {r s : List ℕ}
    → decoded t r ≡ decoded u s
    → IsEncoded buf t r
    → IsEncoded buf u s
moved {buf} {t} {u} {r} {s} e h =
    subst (λ x. IsEncoded buf x s) (cc e) (subst (IsEncoded buf t) (cc e) h)

ipv4-IsEncoded :
    (buf : List ℕ) (t : TargetAddr) (rest : List ℕ)
    → All IsByte buf
    → decode_ipv4 buf ≡ ok (t, rest)
    → IsEncoded (0x01 ∷ buf) t rest
unfolding decode_ipv4 encode
ipv4-IsEncoded buf t rest h e = elim (Bool-cases (ltb (length buf) 6)) [
  | inl k ↦ cc (rw k at e)
  | inr k ↦
      by_value (copy_to_bytes 4 buf) _ (t, rest) (rw k at e)
        (λ r1 e1 f1.
          by_value (get_u16 r1.1) _ (t, rest) f1
            (λ r2 e2 f2.
              let (len, split) = copy_to_bytes-eq-ok 4 buf r1.0 r1.1 e1 in
              let port =
                get_u16-eq-ok r1.1 r2.0 r2.1
                  (All-suffix IsByte r1.0 r1.1 (subst (All IsByte) split h)) e2 in
              moved f2 (record {
                bytes = 0x01 ∷ (r1.0 ++ be16 r2.0);
                encodes = refl;
                split =
                    ap (λ x. 0x01 ∷ x)
                      (split ∙ ap (λ x. r1.0 ++ x) port ∙ sym (append_assoc r1.0 (be16 r2.0) r2.1));
              })))
]

ipv6-IsEncoded :
    (buf : List ℕ) (t : TargetAddr) (rest : List ℕ)
    → All IsByte buf
    → decode_ipv6 buf ≡ ok (t, rest)
    → IsEncoded (0x04 ∷ buf) t rest
unfolding decode_ipv6 encode
ipv6-IsEncoded buf t rest h e = elim (Bool-cases (ltb (length buf) 18)) [
  | inl k ↦ cc (rw k at e)
  | inr k ↦
      by_value (copy_to_bytes 16 buf) _ (t, rest) (rw k at e)
        (λ r1 e1 f1.
          by_value (get_u16 r1.1) _ (t, rest) f1
            (λ r2 e2 f2.
              let (len, split) = copy_to_bytes-eq-ok 16 buf r1.0 r1.1 e1 in
              let port =
                get_u16-eq-ok r1.1 r2.0 r2.1
                  (All-suffix IsByte r1.0 r1.1 (subst (All IsByte) split h)) e2 in
              moved f2 (record {
                bytes = 0x04 ∷ (r1.0 ++ be16 r2.0);
                encodes = refl;
                split =
                    ap (λ x. 0x04 ∷ x)
                      (split ∙ ap (λ x. r1.0 ++ x) port ∙ sym (append_assoc r1.0 (be16 r2.0) r2.1));
              })))
]

text_of-eq-ok : (n : ℕ) (o : Option Str) (d : Str) → text_of n o ≡ ok d → o ≡ some d
unfolding text_of
text_of-eq-ok n none d e = cc e
text_of-eq-ok n (some x) d e = cc e

encode-domain :
    (d : Str) (p n : ℕ)
    → length (utf8 d) ≡ n
    → n < 256
    → encode (domain d p) ≡ ok (0x03 ∷ n ∷ (utf8 d ++ be16 p))
unfolding encode
encode-domain d p n len small =
    rw (le→ltb 255 (length (utf8 d)) (omega (arith, len)))
      (ap (λ x. ok (0x03 ∷ x ∷ (utf8 d ++ be16 p))) (wrapped (length (utf8 d)) n len small))
  where
    wrapped : (m n : ℕ) → m ≡ n → n < 256 → as_u8 m ≡ n
    wrapped m n e h = omega arith

name-IsEncoded :
    (n : ℕ) (buf : List ℕ) (t : TargetAddr) (rest : List ℕ)
    → n < 256
    → All IsByte buf
    → decode_name n buf ≡ ok (t, rest)
    → IsEncoded (0x03 ∷ n ∷ buf) t rest
unfolding decode_name
name-IsEncoded n buf t rest small h e = elim (Bool-cases (n == 0)) [
  | inl k ↦ cc (rw k at e)
  | inr k ↦ elim (Bool-cases (ltb (length buf) (n + 2))) [
    | inl l ↦ cc (rw (k, l) at e)
    | inr l ↦
        by_value (copy_to_bytes n buf) _ (t, rest) (rw (k, l) at e)
          (λ r1 e1 f1.
            by_value (text_of n (from_utf8 r1.0)) _ (t, rest) f1
              (λ d e2 f2.
                by_value (get_u16 r1.1) _ (t, rest) f2
                  (λ r3 e3 f3.
                    let (len, split) = copy_to_bytes-eq-ok n buf r1.0 r1.1 e1 in
                    let port =
                      get_u16-eq-ok r1.1 r3.0 r3.1
                        (All-suffix IsByte r1.0 r1.1 (subst (All IsByte) split h)) e3 in
                    let name = utf8-from_utf8 r1.0 d (text_of-eq-ok n (from_utf8 r1.0) d e2) in
                    moved f3 (record {
                      bytes = 0x03 ∷ n ∷ (utf8 d ++ be16 r3.0);
                      encodes = encode-domain d r3.0 n (ap length name ∙ len) small;
                      split =
                          ap (λ x. 0x03 ∷ n ∷ x)
                            (split
                              ∙ ap (λ x. r1.0 ++ x) port
                              ∙ sym (append_assoc r1.0 (be16 r3.0) r3.1)
                              ∙ ap (λ x. (x ++ be16 r3.0) ++ r3.1) (sym name));
                    }))))
  ]
]

domain-IsEncoded :
    (buf : List ℕ) (t : TargetAddr) (rest : List ℕ)
    → All IsByte buf
    → decode_domain buf ≡ ok (t, rest)
    → IsEncoded (0x03 ∷ buf) t rest
unfolding decode_domain get_u8
domain-IsEncoded [] t rest h e = cc e
domain-IsEncoded (n ∷ buf) t rest h e = elim (Bool-cases (ltb (length (n ∷ buf)) 1)) [
  | inl k ↦ cc (rw k at e)
  | inr k ↦ name-IsEncoded n buf t rest h.0 h.1 (rw k at e)
]

as-IsEncoded :
    (ty : ℕ) (buf : List ℕ) (t : TargetAddr) (rest : List ℕ)
    → All IsByte buf
    → decode_as ty buf ≡ ok (t, rest)
    → IsEncoded (ty ∷ buf) t rest
unfolding decode_as encode
as-IsEncoded ty buf t rest h e = elim (Bool-cases (ty == 0x00)) [
  | inl k ↦
      subst (λ x. IsEncoded (x ∷ buf) t rest) (sym ((==_iff ty 0).0 k))
        (moved (rw k at e) (record { bytes = 0x00 ∷ []; encodes = refl; split = refl }))
  | inr k ↦ elim (Bool-cases (ty == 0x01)) [
    | inl l ↦
        subst (λ x. IsEncoded (x ∷ buf) t rest) (sym ((==_iff ty 1).0 l))
          (ipv4-IsEncoded buf t rest h (rw (k, l) at e))
    | inr l ↦ elim (Bool-cases (ty == 0x04)) [
      | inl m ↦
          subst (λ x. IsEncoded (x ∷ buf) t rest) (sym ((==_iff ty 4).0 m))
            (ipv6-IsEncoded buf t rest h (rw (k, l, m) at e))
      | inr m ↦ elim (Bool-cases (ty == 0x03)) [
        | inl n ↦
            subst (λ x. IsEncoded (x ∷ buf) t rest) (sym ((==_iff ty 3).0 n))
              (domain-IsEncoded buf t rest h (rw (k, l, m, n) at e))
        | inr n ↦ cc (rw (k, l, m, n) at e)
      ]
    ]
  ]
]

-- An address has one encoding. When a buffer of bytes is decoded to an address, the bytes that
-- the decoder used are those that the address is encoded to, and the others are left.
pub decode-IsEncoded :
    (buf : List ℕ) (t : TargetAddr) (rest : List ℕ)
    → All IsByte buf
    → decode buf ≡ ok (t, rest)
    → IsEncoded buf t rest
unfolding decode get_u8
decode-IsEncoded [] t rest h e = cc e
decode-IsEncoded (ty ∷ buf) t rest h e = elim (Bool-cases (ltb (length (ty ∷ buf)) 1)) [
  | inl k ↦ cc (rw k at e)
  | inr k ↦ as-IsEncoded ty buf t rest h.1 (rw k at e)
]
