-- ===== src/Base/Search.antt =====
-- Searching a text: `str::find` with the slice behind the match, `trim_start`, `take_while`.
use Prim.Native.Nat.{ℕ}
use mathlib.Core.Path.{◌≡◌, refl, ap}
use mathlib.Core.Logic.{◌≢◌, ◌⊎◌, inl, inr}
use mathlib.Core.Bool.{Bool, true, false, ◌||◌, ◌&&◌}
use mathlib.Core.Option.{Option, none, some}
use mathlib.Core.List.{[], ◌∷◌, ◌++◌}
use native.Mathlib.Omega.{arith}
use reliz_protocol.Base.Tests.{leb, ◌==◌, if◌then◌else◌, Bool-cases}
use reliz_protocol.Base.Lists.{All}
use reliz_protocol.Base.Utf8.{Str}

-- What follows a prefix.
unfoldable pub strip_prefix : Str → Str → Option Str
strip_prefix [] text = some text
strip_prefix (c ∷ cs) [] = none
strip_prefix (c ∷ cs) (d ∷ text) = let r = strip_prefix cs text in if c == d then r else none

or_else : Option Str → Option Str → Option Str
or_else none later = later
or_else (some r) later = some r

-- What follows the first occurrence.
unfoldable pub behind : Str → Str → Option Str
unfolding or_else
behind pattern_text [] = strip_prefix pattern_text []
behind pattern_text (d ∷ text) =
    or_else (strip_prefix pattern_text (d ∷ text)) (behind pattern_text text)

-- `char::is_whitespace`: the characters with the property White_Space.
unfoldable pub is_whitespace : ℕ → Bool
is_whitespace c =
    leb 9 c && leb c 13
    || c == 32
    || c == 0x85
    || c == 0xa0
    || c == 0x1680
    || leb 0x2000 c && leb c 0x200a
    || c == 0x2028
    || c == 0x2029
    || c == 0x202f
    || c == 0x205f
    || c == 0x3000

unfoldable pub trim_start : Str → Str
trim_start [] = []
trim_start (c ∷ text) = let rest = trim_start text in if is_whitespace c then rest else c ∷ text

-- `take_while` of what is not whitespace.
unfoldable pub take_token : Str → Str
take_token [] = []
take_token (c ∷ text) =
    let rest = take_token text in if is_whitespace c || c == 13 || c == 10 then [] else c ∷ rest

abbrev pub IsSolid : ℕ → Type 0
IsSolid c = is_whitespace c ≡ false

pub strip_prefix-append : (p r : Str) → strip_prefix p (p ++ r) ≡ some r
unfolding strip_prefix
strip_prefix-append [] r = refl
strip_prefix-append (c ∷ p) r = rw (same_char c) (strip_prefix-append p r)
  where
    same_char : (c : ℕ) → (c == c) ≡ true
    same_char c = ground arith

-- A text without the pattern's first character is passed over.
pub behind-append :
    (x : ℕ) (p : Str) (text rest : Str)
    → All (λ c. c ≢ x) text
    → behind (x ∷ p) (text ++ rest) ≡ behind (x ∷ p) rest
unfolding behind strip_prefix
behind-append x p [] rest h = refl
behind-append x p (c ∷ text) rest h = rw (other x c h.0) (behind-append x p text rest h.1)
  where
    other : (x c : ℕ) → c ≢ x → (x == c) ≡ false
    other x c h = ground arith

pub behind-found : (x : ℕ) (p rest : Str) → behind (x ∷ p) ((x ∷ p) ++ rest) ≡ some rest
unfolding behind
behind-found x p rest = rw (strip_prefix-append (x ∷ p) rest)

not_return : (d : ℕ) → IsSolid d → (d == 13) ≡ false
unfolding is_whitespace
not_return d h = ground arith

not_newline : (d : ℕ) → IsSolid d → (d == 10) ≡ false
unfolding is_whitespace
not_newline d h = ground arith

pub take_token-append :
    (t : Str) (c : ℕ) (rest : Str)
    → All IsSolid t
    → is_whitespace c ≡ true
    → take_token (t ++ c ∷ rest) ≡ t
unfolding take_token
take_token-append [] c rest h w = rw w refl
take_token-append (d ∷ t) c rest h w =
    rw (h.0, not_return d h.0, not_newline d h.0)
      (ap (λ t. d ∷ t) (take_token-append t c rest h.1 w))

-- What is found is there.
pub strip_prefix_sound : (p text r : Str) → strip_prefix p text ≡ some r → text ≡ p ++ r
unfolding strip_prefix
strip_prefix_sound [] text r h = cc h
strip_prefix_sound (c ∷ cs) [] r h = cc h
strip_prefix_sound (c ∷ cs) (d ∷ text) r h = ground (arith, strip_prefix_sound cs text r)

or_else_sound : (a b : Option Str) (r : Str) → or_else a b ≡ some r → (a ≡ some r) ⊎ (b ≡ some r)
unfolding or_else
or_else_sound none b r h = inr h
or_else_sound (some x) b r h = inl h

pub behind_sound :
    (p text r : Str) → behind p text ≡ some r → (before : Str) × (text ≡ before ++ (p ++ r))
unfolding behind
behind_sound p [] r h = ([], strip_prefix_sound p [] r h)
behind_sound p (d ∷ text) r h =
    elim (or_else_sound (strip_prefix p (d ∷ text)) (behind p text) r h) [
      | inl e ↦ ([], strip_prefix_sound p (d ∷ text) r e)
      | inr e ↦ let (before, is) = behind_sound p text r e in (d ∷ before, ap (λ t. d ∷ t) is)
    ]

abbrev pub IsSpace : ℕ → Type 0
IsSpace c = is_whitespace c ≡ true

pub trim_start_sound :
    (text : Str) → (gap : Str) × All IsSpace gap × (text ≡ gap ++ trim_start text)
unfolding trim_start
trim_start_sound [] = ([], tt, refl)
trim_start_sound (c ∷ text) =
    let (gap, spaces, is) = trim_start_sound text in
    elim (Bool-cases (is_whitespace c)) [
      | inl h ↦ rw h (c ∷ gap, (h, spaces), ap (λ t. c ∷ t) is)
      | inr h ↦ rw h ([], tt, refl)
    ]

-- Nothing, or a text that begins with whitespace.
abbrev pub IsBreak : Str → Type 0
IsBreak [] = Unit {0}
IsBreak (c ∷ text) = IsSpace c

stop-IsSpace : (c : ℕ) → (is_whitespace c || c == 13 || c == 10) ≡ true → IsSpace c
unfolding is_whitespace
stop-IsSpace c h = ground arith

pub take_token_sound : (text : Str) → (rest : Str) × IsBreak rest × (text ≡ take_token text ++ rest)
unfolding take_token
take_token_sound [] = ([], tt, refl)
take_token_sound (c ∷ text) =
    let (rest, ends, is) = take_token_sound text in
    elim (Bool-cases (is_whitespace c || c == 13 || c == 10)) [
      | inl h ↦ rw h (c ∷ text, stop-IsSpace c h, refl)
      | inr h ↦ rw h (rest, ends, ap (λ t. c ∷ t) is)
    ]
