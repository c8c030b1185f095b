-- ===== src/Base/Utf8/Laws.antt =====
-- What is written as UTF-8 is read back.
use Prim.Native.Nat.{ℕ, ◌+◌, ◌-◌, ◌*◌, ◌/◌, ◌%◌, ◌≤◌, ◌<◌}
use mathlib.Core.Path.{◌≡◌, refl, ap, ◌∙◌}
use mathlib.Core.Logic.{◌≢◌}
use mathlib.Core.Option.{some}
use mathlib.Core.List.{List, [], ◌∷◌, ◌++◌}
use native.Mathlib.Omega.{arith}
use reliz_protocol.Base.Tests.{◌==◌, if◌then◌else◌}
use reliz_protocol.Base.Utf8.{
  IsScalar, IsText, Partial, Piece, Str, all_chars, char, from_utf8, from_utf8_lossy, idle, lead,
  more, pieces, replaced, utf8, utf8_char,
}

lead_one : (b : ℕ) → b < 0x80 → lead b ≡ (char b ∷ [], idle)
unfolding lead
lead_one b h = ground arith

lead_two : (b : ℕ) → 0xc2 ≤ b → b < 0xe0 → lead b ≡ ([], more 1 (b - 0xc0) 0x80 0xbf)
unfolding lead
lead_two b h k = ground arith

lead_three :
    (b : ℕ)
    → 0xe0 ≤ b
    → b < 0xf0
    → lead b ≡ (
      [],
      more 2 (b - 0xe0) (if b == 0xe0 then 0xa0 else 0x80) (if b == 0xed then 0x9f else 0xbf),
    )
unfolding lead
lead_three b h k = ground arith

lead_four :
    (b : ℕ)
    → 0xf0 ≤ b
    → b < 0xf5
    → lead b ≡ (
      [],
      more 3 (b - 0xf0) (if b == 0xf0 then 0x90 else 0x80) (if b == 0xf4 then 0x8f else 0xbf),
    )
unfolding lead
lead_four b h k = ground arith

-- What the first byte of a longer char leaves to read.
after_lead :
    (b : ℕ) (bs : List ℕ) (s : Partial) → lead b ≡ ([], s) → pieces idle (b ∷ bs) ≡ pieces s bs
unfolding pieces
after_lead b bs s e = rw e

last_byte :
    (acc lo hi b : ℕ) (bs : List ℕ)
    → lo ≤ b
    → b ≤ hi
    → pieces (more 1 acc lo hi) (b ∷ bs) ≡ char (acc * 64 + (b - 0x80)) ∷ pieces idle bs
unfolding pieces
last_byte acc lo hi b bs h k = ground arith

inner_byte :
    (left acc lo hi b : ℕ) (bs : List ℕ)
    → left ≢ 1
    → lo ≤ b
    → b ≤ hi
    → pieces (more left acc lo hi) (b ∷ bs)
      ≡ pieces (more (left - 1) (acc * 64 + (b - 0x80)) 0x80 0xbf) bs
unfolding pieces
inner_byte left acc lo hi b bs n h k = ground arith

module _ (rest : List ℕ) where
  scan_one : (b : ℕ) → b < 0x80 → pieces idle (b ∷ rest) ≡ char b ∷ pieces idle rest
  scan_one b h = unfold pieces in rw (lead_one b h)

  scan_two :
      (c : ℕ)
      → 0x80 ≤ c
      → c < 0x800
      → pieces idle ((0xc0 + c / 64) ∷ (0x80 + c % 64) ∷ rest) ≡ char c ∷ pieces idle rest
  scan_two c h k =
      after_lead _ ((0x80 + c % 64) ∷ rest) _ (lead_two (0xc0 + c / 64) (omega arith) (omega arith))
      ∙ last_byte _ _ _ _ rest (omega arith) (omega arith)
      ∙ ap (λ v. char v ∷ pieces idle rest) (omega arith)

  scan_three :
      (c : ℕ)
      → 0x800 ≤ c
      → c < 0x10000
      → IsScalar c
      → pieces idle ((0xe0 + c / 4096) ∷ (0x80 + c / 64 % 64) ∷ (0x80 + c % 64) ∷ rest)
        ≡ char c ∷ pieces idle rest
  scan_three c h k s =
      after_lead _ _ _ (lead_three (0xe0 + c / 4096) (omega arith) (omega arith))
      ∙ inner_byte 2 _ _ _ _ ((0x80 + c % 64) ∷ rest) (omega arith) (ground arith) (ground arith)
      ∙ last_byte _ _ _ _ rest (omega arith) (omega arith)
      ∙ ap (λ v. char v ∷ pieces idle rest) (omega arith)

  scan_four :
      (c : ℕ)
      → 0x10000 ≤ c
      → c < 0x110000
      → pieces idle (
          (0xf0 + c / 262144)
          ∷ (0x80 + c / 4096 % 64)
          ∷ (0x80 + c / 64 % 64)
          ∷ (0x80 + c % 64)
          ∷ rest)
        ≡ char c ∷ pieces idle rest
  scan_four c h k =
      after_lead _ _ _ (lead_four (0xf0 + c / 262144) (omega arith) (omega arith))
      ∙ inner_byte 3 _ _ _ _ ((0x80 + c / 64 % 64) ∷ (0x80 + c % 64) ∷ rest) (omega arith)
          (ground arith) (ground arith)
      ∙ inner_byte 2 _ _ _ _ ((0x80 + c % 64) ∷ rest) (omega arith) (omega arith) (omega arith)
      ∙ last_byte _ _ _ _ rest (omega arith) (omega arith)
      ∙ ap (λ v. char v ∷ pieces idle rest) (omega arith)

pieces-utf8_char :
    (c : ℕ) (rest : List ℕ)
    → IsScalar c
    → pieces idle (utf8_char c ++ rest) ≡ char c ∷ pieces idle rest
unfolding utf8_char
pieces-utf8_char c rest h =
    ground (arith, scan_one rest c, scan_two rest c, scan_three rest c, scan_four rest c)

chars_pieces : Str → List Piece
chars_pieces [] = []
chars_pieces (c ∷ s) = char c ∷ chars_pieces s

pieces-utf8 : (s : Str) → IsText s → pieces idle (utf8 s) ≡ chars_pieces s
unfolding chars_pieces utf8
pieces-utf8 [] h = unfold pieces in refl
pieces-utf8 (c ∷ s) h = pieces-utf8_char c (utf8 s) h.0 ∙ ap (λ t. char c ∷ t) (pieces-utf8 s h.1)

all_chars_lem : (s : Str) → all_chars (chars_pieces s) ≡ some s
unfolding all_chars chars_pieces
all_chars_lem [] = refl
all_chars_lem (c ∷ s) = rw (all_chars_lem s)

replaced_lem : (s : Str) → replaced (chars_pieces s) ≡ s
unfolding replaced chars_pieces
replaced_lem [] = refl
replaced_lem (c ∷ s) = ap (λ t. c ∷ t) (replaced_lem s)

-- Reading the bytes of a string gives it back, strictly and lossily.
pub from_utf8-utf8 : (s : Str) → IsText s → from_utf8 (utf8 s) ≡ some s
unfolding from_utf8
from_utf8-utf8 s h = rw (pieces-utf8 s h) (all_chars_lem s)

pub from_utf8_lossy-utf8 : (s : Str) → IsText s → from_utf8_lossy (utf8 s) ≡ s
unfolding from_utf8_lossy
from_utf8_lossy-utf8 s h = rw (pieces-utf8 s h) (replaced_lem s)
