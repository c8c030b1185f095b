-- ===== src/Base/Bytes/Read.antt =====
-- What a buffer held that was read from.
use reliz_protocol.Base.Results.{Outcome, ok, err, panic, ◌>>=◌}
use Prim.Native.Nat.{ℕ, ◌+◌, ◌*◌, ◌/◌, ◌%◌, ◌<◌}
use mathlib.Core.Path.{◌≡◌, refl, sym, ap, ap₂, ◌∙◌}
use mathlib.Core.Logic.{inl, inr}
use mathlib.Core.List.{List, [], ◌∷◌, ◌++◌}
use native.Mathlib.Omega.{arith}
use reliz_protocol.Base.Tests.{ltb, ge-of_ltb, Bool-cases}
use reliz_protocol.Base.Lists.{length, take, drop, length-take, take-append-drop, All}
use reliz_protocol.Base.Bytes.{IsByte, be16, get_u8, get_u16, copy_to_bytes}

module _ {E A B : Type 0} where
  -- To use a success, it is enough to use that of the first call and that of the rest.
  pub by_value :
      (m : Outcome E A) (f : A → Outcome E B) (b : B) {P : Type 0}
      → (m >>= f) ≡ ok b
      → ((a : A) → m ≡ ok a → f a ≡ ok b → P)
      → P
  by_value (ok a) f b e use_both = use_both a refl e
  by_value (err x) f b e use_both = cc e
  by_value panic f b e use_both = cc e

module _ {E : Type 0} where
  pub copy_to_bytes-eq-ok :
      (n : ℕ) (buf xs rest : List ℕ)
      → copy_to_bytes {E = E} n buf ≡ ok (xs, rest)
      → (length xs ≡ n) × (buf ≡ xs ++ rest)
  unfolding copy_to_bytes
  copy_to_bytes-eq-ok n buf xs rest e = elim (Bool-cases (ltb (length buf) n)) [
    | inl h ↦ cc (rw h at e)
    | inr h ↦
        let front : take n buf ≡ xs = cc (rw h at e) in
        let back : drop n buf ≡ rest = cc (rw h at e) in
        (
          ap length (sym front) ∙ omega (arith, length-take n buf, ge-of_ltb (length buf) n h),
          sym (take-append-drop n buf) ∙ ap₂ ◌++◌ front back,
        )
  ]

  pub get_u8-eq-ok :
      (buf : List ℕ) (b : ℕ) (rest : List ℕ) → get_u8 {E = E} buf ≡ ok (b, rest) → buf ≡ b ∷ rest
  unfolding get_u8
  get_u8-eq-ok [] b rest e = cc e
  get_u8-eq-ok (c ∷ buf) b rest e = cc e

  pub get_u16-eq-ok :
      (buf : List ℕ) (p : ℕ) (rest : List ℕ)
      → All IsByte buf
      → get_u16 {E = E} buf ≡ ok (p, rest)
      → buf ≡ be16 p ++ rest
  unfolding get_u16
  get_u16-eq-ok [] p rest h e = cc e
  get_u16-eq-ok (a ∷ []) p rest h e = cc e
  get_u16-eq-ok (hi ∷ lo ∷ buf) p rest h e =
      let same : hi * 256 + lo ≡ p = cc e in
      let back : buf ≡ rest = cc e in
      λ i. digits hi lo p h.1.0 same i ∷ last hi lo p h.1.0 same i ∷ back i
    where
      digits : (hi lo p : ℕ) → lo < 256 → hi * 256 + lo ≡ p → hi ≡ p / 256
      digits hi lo p k e = omega arith

      last : (hi lo p : ℕ) → lo < 256 → hi * 256 + lo ≡ p → lo ≡ p % 256
      last hi lo p k e = omega arith

  pub get_u16-IsU16 :
      (buf : List ℕ) (p : ℕ) (rest : List ℕ)
      → All IsByte buf
      → get_u16 {E = E} buf ≡ ok (p, rest)
      → p < 65536
  unfolding get_u16
  get_u16-IsU16 [] p rest h e = cc e
  get_u16-IsU16 (a ∷ []) p rest h e = cc e
  get_u16-IsU16 (hi ∷ lo ∷ buf) p rest h e =
      let same : hi * 256 + lo ≡ p = cc e in omega (arith, same, h.0, h.1.0)
