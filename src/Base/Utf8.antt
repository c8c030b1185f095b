-- ===== src/Base/Utf8.antt =====
-- Rust strings. A `String` is the list of its chars (Unicode scalar values); its bytes are their
-- UTF-8. `String::from_utf8` and `String::from_utf8_lossy` read bytes by one decoder, which takes
-- a wrong byte as the start of the next char.
pub mod Laws
pub mod Sound
use Prim.Native.Nat.{ℕ, ◌+◌, ◌-◌, ◌*◌, ◌/◌, ◌%◌, ◌≤◌, ◌<◌}
use Prim.Native.Char.{code}
use Prim.Native.String.{String}
use mathlib.Core.Path.{◌≡◌, refl, ap, ◌∙◌}
use mathlib.Core.Logic.{inl, ◌⊎◌, ◌≢◌}
use mathlib.Core.Bool.{◌&&◌}
use mathlib.Core.Option.{Option, none, some}
use mathlib.Core.List.{List, [], ◌∷◌, ◌++◌}
use native.Mathlib.Omega.{arith}
use reliz_protocol.Base.Tests.{ltb, leb, ◌==◌, if◌then◌else◌}
use reliz_protocol.Base.Lists.{All, All-append}
use reliz_protocol.Base.Bytes.{IsByte}

abbrev pub Str : Type 0
Str = List ℕ

-- The chars of a literal.
abbrev pub chars : String → Str
chars String.[] = []
chars (String.◌∷◌ c s) = code c ∷ chars s

abbrev pub IsScalar : ℕ → Type 0
IsScalar c = (c < 0xd800) ⊎ ((0xe000 ≤ c) × (c < 0x110000))

abbrev pub IsText : Str → Type 0
IsText = All IsScalar

unfoldable pub utf8_char : ℕ → List ℕ
utf8_char c =
    if ltb c 0x80
    then c ∷ []
    else if ltb c 0x800
    then (0xc0 + c / 64) ∷ (0x80 + c % 64) ∷ []
    else if ltb c 0x10000
    then (0xe0 + c / 4096) ∷ (0x80 + c / 64 % 64) ∷ (0x80 + c % 64) ∷ []
    else (0xf0 + c / 262144) ∷ (0x80 + c / 4096 % 64) ∷ (0x80 + c / 64 % 64) ∷ (0x80 + c % 64) ∷ []

-- `as_bytes`
unfoldable pub utf8 : Str → List ℕ
unfolding utf8_char
utf8 [] = []
utf8 (c ∷ s) = utf8_char c ++ utf8 s

-- In the middle of a char: the bytes it still needs, its value so far, and the range of the next.
pub data Partial : Type 0 where
  idle : Partial
  more : ℕ → ℕ → ℕ → ℕ → Partial

pub data Piece : Type 0 where
  char : ℕ → Piece
  bad : Piece

pub lead : ℕ → List Piece × Partial
lead b =
    if ltb b 0x80
    then (char b ∷ [], idle)
    else if ltb b 0xc2
    then (bad ∷ [], idle)
    else if ltb b 0xe0
    then ([], more 1 (b - 0xc0) 0x80 0xbf)
    else if b == 0xe0
    then ([], more 2 0 0xa0 0xbf)
    else if b == 0xed
    then ([], more 2 13 0x80 0x9f)
    else if ltb b 0xf0
    then ([], more 2 (b - 0xe0) 0x80 0xbf)
    else if b == 0xf0
    then ([], more 3 0 0x90 0xbf)
    else if ltb b 0xf4
    then ([], more 3 (b - 0xf0) 0x80 0xbf)
    else if b == 0xf4
    then ([], more 3 4 0x80 0x8f)
    else (bad ∷ [], idle)

abbrev cons_piece : Piece → List Piece × Partial → List Piece × Partial
cons_piece p (ps, s) = (p ∷ ps, s)

next : Partial → ℕ → List Piece × Partial
unfolding lead
next idle b = lead b
next (more left acc lo hi) b =
    if leb lo b && leb b hi
    then (if left == 1
        then (char (acc * 64 + (b - 0x80)) ∷ [], idle)
        else ([], more (left - 1) (acc * 64 + (b - 0x80)) 0x80 0xbf))
    else cons_piece bad (lead b)

unfoldable pub pieces : Partial → List ℕ → List Piece
unfolding next
pieces idle [] = []
pieces (more _ _ _ _) [] = bad ∷ []
pieces s (b ∷ bs) = (next s b).0 ++ pieces (next s b).1 bs

unfoldable pub all_chars : List Piece → Option Str
all_chars [] = some []
all_chars (char c ∷ ps) = elim (all_chars ps) [ some s ↦ some (c ∷ s) | none ↦ none ]
all_chars (bad ∷ ps) = none

unfoldable pub replaced : List Piece → Str
replaced [] = []
replaced (char c ∷ ps) = c ∷ replaced ps
replaced (bad ∷ ps) = 0xfffd ∷ replaced ps

-- `String::from_utf8`, `none` for its error, and `String::from_utf8_lossy`
unfoldable pub from_utf8 : List ℕ → Option Str
unfolding pieces all_chars
from_utf8 bytes = all_chars (pieces idle bytes)

unfoldable pub from_utf8_lossy : List ℕ → Str
unfolding pieces replaced
from_utf8_lossy bytes = replaced (pieces idle bytes)

abbrev pub IsAscii : ℕ → Type 0
IsAscii c = c < 0x80

pub IsAscii-IsText : (s : Str) → All IsAscii s → IsText s
IsAscii-IsText [] h = tt
IsAscii-IsText (c ∷ s) h = (inl (omega arith), IsAscii-IsText s h.1)

pub utf8-ascii : (s : Str) → All IsAscii s → utf8 s ≡ s
unfolding utf8
utf8-ascii [] h = refl
utf8-ascii (c ∷ s) h = ground (arith, utf8-ascii s h.1)

utf8_char-IsByte : (c : ℕ) → IsScalar c → All IsByte (utf8_char c)
unfolding utf8_char
utf8_char-IsByte c h = ground arith

pub utf8-IsByte : (s : Str) → IsText s → All IsByte (utf8 s)
unfolding utf8
utf8-IsByte [] h = tt
utf8-IsByte (c ∷ s) h =
    All-append IsByte (utf8_char c) (utf8 s) (utf8_char-IsByte c h.0) (utf8-IsByte s h.1)
