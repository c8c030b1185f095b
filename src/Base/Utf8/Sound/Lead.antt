-- ===== src/Base/Utf8/Sound/Lead.antt =====
-- The first byte of a char, and what the bytes behind it make of it.
use Prim.Native.Nat.{ℕ, zero, suc, ◌+◌, ◌-◌, ◌*◌, ◌≤◌, ◌<◌}
use mathlib.Core.Path.{◌≡◌, refl, ap₂, ◌∙◌}
use mathlib.Core.Logic.{inl, inr}
use mathlib.Core.Bool.{true, false}
use mathlib.Core.List.{List, [], ◌∷◌, ◌++◌}
use native.Mathlib.Omega.{arith}
use reliz_protocol.Base.Tests.{ge-of_ltb, ==_iff, ltb, ◌==◌, Bool-cases, lt→ltb, le→ltb}
use reliz_protocol.Base.Utf8.{utf8_char, Partial, idle, more, Piece, char, bad, lead}

-- What the bytes of a char so far make of those that still come: `n` more, the first from `lo` to
-- `hi`.
abbrev pub Completes : ℕ → ℕ → ℕ → ℕ → List ℕ → Type 0
Completes zero acc lo hi pre = ⊥
Completes (suc zero) acc lo hi pre =
    (b : ℕ) → lo ≤ b → b ≤ hi → utf8_char (acc * 64 + (b - 0x80)) ≡ pre ++ (b ∷ [])
Completes (suc (suc n)) acc lo hi pre =
    (b : ℕ)
    → lo ≤ b
    → b ≤ hi
    → Completes (suc n) (acc * 64 + (b - 0x80)) 0x80 0xbf (pre ++ (b ∷ []))

two_bytes :
    (a d : ℕ) → 2 ≤ a → a < 32 → d < 64 → utf8_char (a * 64 + d) ≡ (0xc0 + a) ∷ (0x80 + d) ∷ []
unfolding utf8_char
two_bytes a d h k l =
    rw (le→ltb (a * 64 + d) 0x80 (omega arith), lt→ltb (a * 64 + d) 0x800 (omega arith))
      (ap₂ (λ x y. (0xc0 + x) ∷ (0x80 + y) ∷ []) (omega arith) (omega arith))

three_bytes :
    (a d e : ℕ)
    → 32 ≤ a * 64 + d
    → a < 16
    → d < 64
    → e < 64
    → utf8_char ((a * 64 + d) * 64 + e) ≡ (0xe0 + a) ∷ (0x80 + d) ∷ (0x80 + e) ∷ []
unfolding utf8_char
three_bytes a d e h k l m =
    rw
      (
        le→ltb ((a * 64 + d) * 64 + e) 0x80 (omega arith),
        le→ltb ((a * 64 + d) * 64 + e) 0x800 (omega arith),
        lt→ltb ((a * 64 + d) * 64 + e) 0x10000 (omega arith),
      )
      (ap₃ (omega arith) (omega arith) (omega arith))
  where
    ap₃ :
        {x y z u v w : ℕ}
        → x ≡ u
        → y ≡ v
        → z ≡ w
        → (0xe0 + x) ∷ (0x80 + y) ∷ (0x80 + z) ∷ [] ≡ (0xe0 + u) ∷ (0x80 + v) ∷ (0x80 + w) ∷ []
    ap₃ p q r = λ i. (0xe0 + p i) ∷ (0x80 + q i) ∷ (0x80 + r i) ∷ []

four_bytes :
    (a d e f : ℕ)
    → 16 ≤ a * 64 + d
    → a < 5
    → d < 64
    → e < 64
    → f < 64
    → utf8_char (((a * 64 + d) * 64 + e) * 64 + f)
      ≡ (0xf0 + a) ∷ (0x80 + d) ∷ (0x80 + e) ∷ (0x80 + f) ∷ []
unfolding utf8_char
four_bytes a d e f h k l m n =
    rw
      (
        le→ltb (((a * 64 + d) * 64 + e) * 64 + f) 0x80 (omega arith),
        le→ltb (((a * 64 + d) * 64 + e) * 64 + f) 0x800 (omega arith),
        le→ltb (((a * 64 + d) * 64 + e) * 64 + f) 0x10000 (omega arith),
      )
      (ap₄ (omega arith) (omega arith) (omega arith) (omega arith))
  where
    ap₄ :
        {x y z t u v w o : ℕ}
        → x ≡ u
        → y ≡ v
        → z ≡ w
        → t ≡ o
        → (0xf0 + x) ∷ (0x80 + y) ∷ (0x80 + z) ∷ (0x80 + t) ∷ []
          ≡ (0xf0 + u) ∷ (0x80 + v) ∷ (0x80 + w) ∷ (0x80 + o) ∷ []
    ap₄ p q r s = λ i. (0xf0 + p i) ∷ (0x80 + q i) ∷ (0x80 + r i) ∷ (0x80 + s i) ∷ []

back : (n b : ℕ) → n ≤ b → n + (b - n) ≡ b
back n b h = omega arith

back_as : (n b acc : ℕ) → n ≤ b → acc ≡ b - n → n + acc ≡ b
back_as n b acc h e = omega arith

-- The rest of a char of two, three and four bytes.
two_bytes-Completes : (b : ℕ) → 0xc2 ≤ b → b < 0xe0 → Completes 1 (b - 0xc0) 0x80 0xbf (b ∷ [])
two_bytes-Completes b h k c l m =
    two_bytes (b - 0xc0) (c - 0x80) (omega arith) (omega arith) (omega arith)
    ∙ ap₂ (λ x y. x ∷ y ∷ []) (back 0xc0 b (omega arith)) (back 0x80 c l)

three_bytes-Completes :
    (b acc lo hi : ℕ)
    → 0xe0 ≤ b
    → b < 0xf0
    → acc ≡ b - 0xe0
    → 0x80 ≤ lo
    → hi ≤ 0xbf
    → 32 ≤ acc * 64 + (lo - 0x80)
    → Completes 2 acc lo hi (b ∷ [])
three_bytes-Completes b acc lo hi h k same low high large c l m d n o =
    three_bytes acc (c - 0x80) (d - 0x80) (omega arith) (omega arith) (omega arith) (omega arith)
    ∙ (λ i. back_as 0xe0 b acc h same i ∷ back 0x80 c (omega arith) i ∷ back 0x80 d n i ∷ [])

four_bytes-Completes :
    (b acc lo hi : ℕ)
    → 0xf0 ≤ b
    → b < 0xf5
    → acc ≡ b - 0xf0
    → 0x80 ≤ lo
    → hi ≤ 0xbf
    → 16 ≤ acc * 64 + (lo - 0x80)
    → Completes 3 acc lo hi (b ∷ [])
four_bytes-Completes b acc lo hi h k same low high large c l m d n o e p q =
    four_bytes acc (c - 0x80) (d - 0x80) (e - 0x80) (omega arith) (omega arith) (omega arith)
      (omega arith) (omega arith)
    ∙ (λ i.
        back_as 0xf0 b acc h same i
        ∷ back 0x80 c (omega arith) i
        ∷ back 0x80 d n i
        ∷ back 0x80 e p i
        ∷ [])

-- What a first byte comes to.
abbrev pub IsLead : ℕ → List Piece × Partial → Type 0
IsLead b (char c ∷ [], idle) = utf8_char c ≡ b ∷ []
IsLead b (bad ∷ [], idle) = Unit {0}
IsLead b ([], more n acc lo hi) = Completes n acc lo hi (b ∷ [])
IsLead b _ = ⊥

one_byte : (b : ℕ) → b < 0x80 → utf8_char b ≡ b ∷ []
unfolding utf8_char
one_byte b h = rw (lt→ltb b 0x80 h) refl

lt-of_ltb : (a b : ℕ) → ltb a b ≡ true → a < b
lt-of_ltb a b h = ground arith

eq-of_test : (a b : ℕ) → (a == b) ≡ true → a ≡ b
eq-of_test a b h = (==_iff a b).0 h

ne-of_test : (a b : ℕ) → (a == b) ≡ false → a ≡ b → ⊥
ne-of_test a b h e = ground arith

-- From 0xe0 on, and from 0xf0 on.
three_lead : (b : ℕ) → 0xe0 ≤ b → ltb b 0xf0 ≡ true → IsLead b (lead b)
unfolding lead
three_lead b h k =
    let below = lt-of_ltb b 0xf0 k in
    elim (Bool-cases (b == 0xe0)) [
      | inl e ↦
          rw (le→ltb b 0x80 (omega arith), le→ltb b 0xc2 (omega arith), le→ltb b 0xe0 h, e)
            (three_bytes-Completes b 0 0xa0 0xbf h below (omega (arith, eq-of_test b 0xe0 e))
              (omega arith) (omega arith) (omega arith))
      | inr ne ↦ elim (Bool-cases (b == 0xed)) [
        | inl e ↦
            rw (le→ltb b 0x80 (omega arith), le→ltb b 0xc2 (omega arith), le→ltb b 0xe0 h, ne, e)
              (three_bytes-Completes b 13 0x80 0x9f h below (omega (arith, eq-of_test b 0xed e))
                (omega arith) (omega arith) (omega arith))
        | inr other ↦
            rw
              (
                le→ltb b 0x80 (omega arith),
                le→ltb b 0xc2 (omega arith),
                le→ltb b 0xe0 h,
                ne,
                other,
                k,
              )
              (three_bytes-Completes b (b - 0xe0) 0x80 0xbf h below refl (omega arith) (omega arith)
                (omega (arith, above b h ne)))
      ]
    ]
  where
    above : (b : ℕ) → 0xe0 ≤ b → (b == 0xe0) ≡ false → 0xe1 ≤ b
    above b h ne = ground arith

four_lead : (b : ℕ) → 0xf0 ≤ b → IsLead b (lead b)
unfolding lead
four_lead b h = elim (Bool-cases (b == 0xf0)) [
  | inl e ↦
      rw
        (
          low 0x80 b h (omega arith),
          low 0xc2 b h (omega arith),
          low 0xe0 b h (omega arith),
          test b 0xe0 h (omega arith),
          test b 0xed h (omega arith),
          le→ltb b 0xf0 h,
          e,
        )
        (four_bytes-Completes b 0 0x90 0xbf h (omega (arith, eq-of_test b 0xf0 e))
          (omega (arith, eq-of_test b 0xf0 e)) (omega arith) (omega arith) (omega arith))
  | inr ne ↦ elim (Bool-cases (ltb b 0xf4)) [
    | inl k ↦
        rw
          (
            low 0x80 b h (omega arith),
            low 0xc2 b h (omega arith),
            low 0xe0 b h (omega arith),
            test b 0xe0 h (omega arith),
            test b 0xed h (omega arith),
            le→ltb b 0xf0 h,
            ne,
            k,
          )
          (four_bytes-Completes b (b - 0xf0) 0x80 0xbf h (omega (arith, lt-of_ltb b 0xf4 k)) refl
            (omega arith) (omega arith) (omega (arith, above b h ne)))
    | inr k ↦ elim (Bool-cases (b == 0xf4)) [
      | inl e ↦
          rw
            (
              low 0x80 b h (omega arith),
              low 0xc2 b h (omega arith),
              low 0xe0 b h (omega arith),
              test b 0xe0 h (omega arith),
              test b 0xed h (omega arith),
              le→ltb b 0xf0 h,
              ne,
              k,
              e,
            )
            (four_bytes-Completes b 4 0x80 0x8f h (omega (arith, eq-of_test b 0xf4 e))
              (omega (arith, eq-of_test b 0xf4 e)) (omega arith) (omega arith) (omega arith))
      | inr e ↦
          rw
            (
              low 0x80 b h (omega arith),
              low 0xc2 b h (omega arith),
              low 0xe0 b h (omega arith),
              test b 0xe0 h (omega arith),
              test b 0xed h (omega arith),
              le→ltb b 0xf0 h,
              ne,
              k,
              e,
            )
            tt
    ]
  ]
]
  where
    low : (n b : ℕ) → 0xf0 ≤ b → n ≤ 0xf0 → ltb b n ≡ false
    low n b h k = le→ltb b n (omega arith)

    test : (b n : ℕ) → 0xf0 ≤ b → n < 0xf0 → (b == n) ≡ false
    test b n h k = ground arith

    above : (b : ℕ) → 0xf0 ≤ b → (b == 0xf0) ≡ false → 0xf1 ≤ b
    above b h ne = ground arith

pub lead-IsLead : (b : ℕ) → IsLead b (lead b)
lead-IsLead b = elim (Bool-cases (ltb b 0x80)) [
  | inl h ↦ unfold lead in rw h (one_byte b (lt-of_ltb b 0x80 h))
  | inr h ↦ elim (Bool-cases (ltb b 0xc2)) [
    | inl h2 ↦ unfold lead in rw (h, h2) tt
    | inr h2 ↦ elim (Bool-cases (ltb b 0xe0)) [
      | inl h3 ↦
          unfold lead in
          rw (h, h2, h3) (two_bytes-Completes b (ge-of_ltb b 0xc2 h2) (lt-of_ltb b 0xe0 h3))
      | inr h3 ↦ elim (Bool-cases (ltb b 0xf0)) [
        | inl h4 ↦ three_lead b (ge-of_ltb b 0xe0 h3) h4
        | inr h4 ↦ four_lead b (ge-of_ltb b 0xf0 h4)
      ]
    ]
  ]
]
