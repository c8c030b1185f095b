-- ===== src/Base/Bytes.antt =====
-- Bytes and big-endian words, and the reads of `bytes::Buf` and `read_exact` on a list of bytes.
pub mod Read
use Prim.Native.Nat.{ℕ, ◌+◌, ◌*◌, ◌/◌, ◌%◌, ◌^◌, ◌≤◌, ◌<◌}
use mathlib.Core.Path.{◌≡◌}
use mathlib.Core.Logic.{◌≢◌}
use mathlib.Core.List.{List, [], ◌∷◌, ◌++◌}
use native.Mathlib.Omega.{arith}
use reliz_protocol.Base.Tests.{ltb, if◌then◌else◌}
use reliz_protocol.Base.Lists.{length, take, drop, length-append, take-append, drop-append}
use reliz_protocol.Base.Results.{Outcome, ok, panic}

abbrev pub IsByte : ℕ → Type 0
IsByte b = b < 256

abbrev pub IsU16 : ℕ → Type 0
IsU16 n = n < 2 ^ 16

abbrev pub IsU32 : ℕ → Type 0
IsU32 n = n < 2 ^ 32

abbrev pub as_u8 : ℕ → ℕ
as_u8 n = n % 256

abbrev pub as_u16 : ℕ → ℕ
as_u16 n = n % 65536

-- `to_be_bytes` of a u16, `put_u16`
abbrev pub be16 : ℕ → List ℕ
be16 n = (n / 256) ∷ (n % 256) ∷ []

-- `get_u8`, `get_u16`, `copy_to_bytes`: each panics on a buffer that is too short.
unfoldable pub get_u8 {ℓ} : {E : Type ℓ} → List ℕ → Outcome E (ℕ × List ℕ)
get_u8 [] = panic
get_u8 (b ∷ buf) = ok (b, buf)

unfoldable pub get_u16 {ℓ} : {E : Type ℓ} → List ℕ → Outcome E (ℕ × List ℕ)
get_u16 (hi ∷ lo ∷ buf) = ok (hi * 256 + lo, buf)
get_u16 _ = panic

unfoldable pub copy_to_bytes {ℓ} : {E : Type ℓ} → ℕ → List ℕ → Outcome E (List ℕ × List ℕ)
copy_to_bytes n buf = if ltb (length buf) n then panic else ok (take n buf, drop n buf)

module _ {ℓ} {E : Type ℓ} where
  pub copy_to_bytes-append :
      (n : ℕ) (xs rest : List ℕ)
      → length xs ≡ n
      → copy_to_bytes {E = E} n (xs ++ rest) ≡ ok (xs, rest)
  unfolding copy_to_bytes
  copy_to_bytes-append n xs rest h =
      ground (arith, length-append xs rest, take-append n xs rest, drop-append n xs rest)

  pub get_u16-be16 : (n : ℕ) (rest : List ℕ) → get_u16 {E = E} (be16 n ++ rest) ≡ ok (n, rest)
  unfolding get_u16
  get_u16-be16 n rest = ground arith

  pub get_u8-ne-panic : (buf : List ℕ) → 1 ≤ length buf → get_u8 {E = E} buf ≢ panic
  unfolding get_u8
  get_u8-ne-panic [] h = absurd (omega arith)
  get_u8-ne-panic (b ∷ buf) h = λ e. cc

  pub get_u16-ne-panic : (buf : List ℕ) → 2 ≤ length buf → get_u16 {E = E} buf ≢ panic
  unfolding get_u16
  get_u16-ne-panic [] h = absurd (omega arith)
  get_u16-ne-panic (b ∷ []) h = absurd (omega arith)
  get_u16-ne-panic (b ∷ c ∷ buf) h = λ e. cc

  pub copy_to_bytes_lem :
      (n : ℕ) (buf : List ℕ)
      → n ≤ length buf
      → copy_to_bytes {E = E} n buf ≡ ok (take n buf, drop n buf)
  unfolding copy_to_bytes
  copy_to_bytes_lem n buf h = ground arith
