-- ===== src/Base/Utf8/Sound.antt =====
-- The text that is read from bytes is encoded as these bytes.
pub mod Lead
use reliz_protocol.Base.Utf8.Sound.Lead.{Completes, IsLead, lead-IsLead}
use Prim.Native.Nat.{ℕ, zero, suc, ◌+◌, ◌-◌, ◌*◌, ◌/◌, ◌%◌, ◌≤◌, ◌<◌}
use mathlib.Core.Path.{◌≡◌, refl, sym, ap, ap₂, ◌∙◌}
use mathlib.Core.Logic.{inl, inr}
use mathlib.Core.Bool.{Bool, true, false, ◌&&◌}
use mathlib.Core.Option.{Option, none, some}
use mathlib.Core.List.{List, [], ◌∷◌, ◌++◌, append-nil, append_assoc}
use native.Mathlib.Omega.{arith}
use reliz_protocol.Base.Tests.{
  ge-of_ltb, lt-of_leb, ==_iff, ltb, leb, ◌==◌, if◌then◌else◌, Bool-cases, le-of_leb, lt→ltb,
  le→ltb,
}
use reliz_protocol.Base.Utf8.{
  Str, utf8, utf8_char, Partial, idle, more, Piece, char, bad, lead, next, pieces, all_chars,
  from_utf8,
}

abbrev IsSoFar : Partial → List ℕ → Type 0
IsSoFar idle pre = pre ≡ []
IsSoFar (more n acc lo hi) pre = Completes n acc lo hi pre

-- A char and what is read behind it.
char-eq-some :
    (c : ℕ) (ps : List Piece) (s : Str)
    → all_chars (char c ∷ ps) ≡ some s
    → (rest : Str) × (all_chars ps ≡ some rest) × (c ∷ rest ≡ s)
unfolding all_chars
char-eq-some c ps s e = by_rest (all_chars ps) refl e
  where
    by_rest :
        (o : Option Str)
        → all_chars ps ≡ o
        → elim o as (λ x. Option Str) [ some s ↦ some (c ∷ s) | none ↦ none ] ≡ some s
        → (rest : Str) × (all_chars ps ≡ some rest) × (c ∷ rest ≡ s)
    by_rest none h e = cc e
    by_rest (some rest) h e = (rest, h, cc e)

bad-ne-some : (ps : List Piece) (s : Str) → all_chars (bad ∷ ps) ≡ some s → ⊥
unfolding all_chars
bad-ne-some ps s e = cc e

-- What is read of the rest of the bytes.
abbrev Sound : List ℕ → Type 0
Sound bs =
    (st : Partial) (pre : List ℕ) (s : Str)
    → IsSoFar st pre
    → all_chars (pieces st bs) ≡ some s
    → utf8 s ≡ pre ++ bs

char-Sound :
    (c : ℕ) (pre bs : List ℕ) (s : Str)
    → Sound bs
    → utf8_char c ≡ pre
    → all_chars (char c ∷ pieces idle bs) ≡ some s
    → utf8 s ≡ pre ++ bs
unfolding utf8
char-Sound c pre bs s later is e =
    let (rest, reads, same) = char-eq-some c (pieces idle bs) s e in
    ap utf8 (sym same) ∙ ap₂ ◌++◌ is (later idle [] rest refl reads)

lead-Sound :
    (b : ℕ) (bs : List ℕ) (s : Str) (r : List Piece × Partial)
    → Sound bs
    → IsLead b r
    → all_chars (r.0 ++ pieces r.1 bs) ≡ some s
    → utf8 s ≡ b ∷ bs
lead-Sound b bs s (char c ∷ [], idle) later is e = char-Sound c (b ∷ []) bs s later is e
lead-Sound b bs s (bad ∷ [], idle) later is e = absurd (bad-ne-some _ s e)
lead-Sound b bs s ([], more n acc lo hi) later is e = later (more n acc lo hi) (b ∷ []) s is e
lead-Sound b bs s ([], idle) later is e = absurd is
lead-Sound b bs s (char c ∷ [], more n acc lo hi) later is e = absurd is
lead-Sound b bs s (char c ∷ (x ∷ ps), st) later is e = absurd is
lead-Sound b bs s (bad ∷ [], more n acc lo hi) later is e = absurd is
lead-Sound b bs s (bad ∷ (x ∷ ps), st) later is e = absurd is

in_range : (lo hi b : ℕ) → (leb lo b && leb b hi) ≡ true → (lo ≤ b) × (b ≤ hi)
in_range lo hi b h = ground arith

inner_piece :
    (n acc lo hi b : ℕ) (bs : List ℕ)
    → (leb lo b && leb b hi) ≡ true
    → pieces (more (suc (suc n)) acc lo hi) (b ∷ bs)
      ≡ pieces (more (suc n) (acc * 64 + (b - 0x80)) 0x80 0xbf) bs
unfolding pieces next
inner_piece n acc lo hi b bs h =
    rw (h, two_more n)
      (ap (λ t. pieces (more t (acc * 64 + (b - 0x80)) 0x80 0xbf) bs) (omega arith))
  where
    two_more : (n : ℕ) → (suc (suc n) == 1) ≡ false
    two_more n = ground arith

no_bytes : (s : Str) (pre : List ℕ) → pre ≡ [] → all_chars [] ≡ some s → utf8 s ≡ pre ++ []
unfolding utf8 all_chars
no_bytes [] pre is e = ap (λ t. t ++ []) (sym is)
no_bytes (c ∷ s) pre is e = cc e

-- A byte in the middle of a char.
more-Sound :
    (n acc lo hi b : ℕ) (bs pre : List ℕ) (s : Str)
    → Sound bs
    → Completes n acc lo hi pre
    → all_chars (pieces (more n acc lo hi) (b ∷ bs)) ≡ some s
    → utf8 s ≡ pre ++ (b ∷ bs)
unfolding pieces next
more-Sound zero acc lo hi b bs pre s later is e = absurd is
more-Sound (suc zero) acc lo hi b bs pre s later is e = elim (Bool-cases (leb lo b && leb b hi)) [
  | inl h ↦
      let (low, high) = in_range lo hi b h in
      char-Sound (acc * 64 + (b - 0x80)) (pre ++ (b ∷ [])) bs s later (is b low high) (rw h at e)
      ∙ append_assoc pre (b ∷ []) bs
  | inr h ↦ absurd (bad-ne-some _ s (rw h at e))
]
more-Sound (suc (suc n)) acc lo hi b bs pre s later is e =
    elim (Bool-cases (leb lo b && leb b hi)) [
      | inl h ↦
          let (low, high) = in_range lo hi b h in
          later (more (suc n) (acc * 64 + (b - 0x80)) 0x80 0xbf) (pre ++ (b ∷ [])) s (is b low high)
            (sym (ap all_chars (inner_piece n acc lo hi b bs h)) ∙ e)
          ∙ append_assoc pre (b ∷ []) bs
      | inr h ↦ absurd (bad-ne-some _ s (rw h at e))
    ]

pieces-Sound : (bs : List ℕ) → Sound bs
unfolding pieces next
pieces-Sound [] idle pre s is e = no_bytes s pre is e
pieces-Sound [] (more n acc lo hi) pre s is e = absurd (bad-ne-some [] s e)
pieces-Sound (b ∷ bs) idle pre s is e =
    lead-Sound b bs s (lead b) (pieces-Sound bs) (lead-IsLead b) e
    ∙ ap (λ t. t ++ (b ∷ bs)) (sym is)
pieces-Sound (b ∷ bs) (more n acc lo hi) pre s is e =
    more-Sound n acc lo hi b bs pre s (pieces-Sound bs) is e

-- The text that is read from bytes is encoded as these bytes.
pub utf8-from_utf8 : (bs : List ℕ) (s : Str) → from_utf8 bs ≡ some s → utf8 s ≡ bs
unfolding from_utf8
utf8-from_utf8 bs s e = pieces-Sound bs idle [] s refl e
