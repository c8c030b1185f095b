-- ===== src/Base/Hex.antt =====
-- `hex_encode` (ghost-server/src/handler.rs, ghost-client/src/tunnel.rs and
-- ghost-reality/src/reality_server.rs have the same function) and the reading of hexadecimal
-- byte pairs by `u8::from_str_radix(&hex[i * 2..i * 2 + 2], 16)`.
use Prim.Native.Nat.{ℕ, ◌+◌, ◌-◌, ◌*◌, ◌/◌, ◌%◌, ◌<◌}
use mathlib.Core.Path.{◌≡◌, refl, ap}
use mathlib.Core.Bool.{Bool, true, false, ◌&&◌}
use mathlib.Core.Option.{Option, none, some}
use mathlib.Core.List.{List, [], ◌∷◌}
use native.Mathlib.Omega.{arith}
use reliz_protocol.Base.Tests.{ltb, leb, ◌==◌, if◌then◌else◌}
use reliz_protocol.Base.Lists.{length, All}
use reliz_protocol.Base.Results.{Outcome, ok, err, panic, ◌>>=◌}
use reliz_protocol.Base.Bytes.{IsByte}
use reliz_protocol.Base.Utf8.{Str, IsAscii}

abbrev pub hex_digit : ℕ → ℕ
hex_digit d = if ltb d 10 then b'0' + d else b'a' + (d - 10)

unfoldable pub hex_encode : List ℕ → Str
hex_encode [] = []
hex_encode (b ∷ bytes) = hex_digit (b / 16) ∷ hex_digit (b % 16) ∷ hex_encode bytes

-- `char::to_digit(16)`
unfoldable pub to_digit : ℕ → Option ℕ
to_digit c =
    if leb b'0' c && leb c b'9'
    then some (c - b'0')
    else if leb b'a' c && leb c b'f'
    then some (c - b'a' + 10)
    else if leb b'A' c && leb c b'F'
    then some (c - b'A' + 10)
    else none

both_digits : Option ℕ → Option ℕ → Option ℕ
both_digits (some hi) (some lo) = some (hi * 16 + lo)
both_digits _ _ = none

-- `from_str_radix` of two bytes; it takes a leading plus sign.
unfoldable pub hex_pair : ℕ → ℕ → Option ℕ
unfolding to_digit both_digits
hex_pair a b = if a == b'+' then to_digit b else both_digits (to_digit a) (to_digit b)

abbrev is_continuation : ℕ → Bool
is_continuation b = leb 0x80 b && leb b 0xbf

-- The end of a slice is a char boundary at the end of the string or before a first byte.
boundary : List ℕ → Bool
boundary [] = true
boundary (b ∷ rest) = if is_continuation b then false else true

cons_byte {ℓ} : {E : Type ℓ} → E → Option ℕ → Outcome E (List ℕ) → Outcome E (List ℕ)
cons_byte e none rest = err e
cons_byte e (some v) rest = rest >>= λ vs. ok (v ∷ vs)

-- The loop over the pairs of bytes of a string of even length; a slice that cuts a char panics.
unfoldable pub hex_pairs {ℓ} : {E : Type ℓ} → E → List ℕ → Outcome E (List ℕ)
unfolding boundary cons_byte
hex_pairs e (a ∷ b ∷ rest) =
    let more = hex_pairs e rest in
    if boundary (a ∷ []) && boundary rest then cons_byte e (hex_pair a b) more else panic
hex_pairs e _ = ok []

-- `hex.replace('-', "")`
unfoldable pub without_dashes : Str → Str
without_dashes [] = []
without_dashes (c ∷ s) = let rest = without_dashes s in if c == b'-' then rest else c ∷ rest

pub length-hex_encode : (bytes : List ℕ) → length (hex_encode bytes) ≡ 2 * length bytes
unfolding hex_encode
length-hex_encode [] = refl
length-hex_encode (b ∷ bytes) = omega (arith, length-hex_encode bytes)

pub hex_encode-IsAscii : (bytes : List ℕ) → All IsByte bytes → All IsAscii (hex_encode bytes)
unfolding hex_encode
hex_encode-IsAscii [] h = tt
hex_encode-IsAscii (b ∷ bytes) h = (ground arith, (ground arith, hex_encode-IsAscii bytes h.1))

hex_digit-ne-dash : (d : ℕ) → (hex_digit d == b'-') ≡ false
hex_digit-ne-dash d = ground arith

pub without_dashes-hex_encode :
    (bytes : List ℕ) → without_dashes (hex_encode bytes) ≡ hex_encode bytes
unfolding hex_encode without_dashes
without_dashes-hex_encode [] = refl
without_dashes-hex_encode (b ∷ bytes) =
    rw (hex_digit-ne-dash (b / 16), hex_digit-ne-dash (b % 16))
      (ap (λ t. hex_digit (b / 16) ∷ hex_digit (b % 16) ∷ t) (without_dashes-hex_encode bytes))

to_digit-hex_digit : (d : ℕ) → d < 16 → to_digit (hex_digit d) ≡ some d
unfolding to_digit
to_digit-hex_digit d h = ground arith

hex_pair-hex_digit : (b : ℕ) → b < 256 → hex_pair (hex_digit (b / 16)) (hex_digit (b % 16)) ≡ some b
unfolding hex_pair to_digit
hex_pair-hex_digit b h = ground arith

boundary-hex_encode : (bytes : List ℕ) → All IsByte bytes → boundary (hex_encode bytes) ≡ true
unfolding boundary hex_encode
boundary-hex_encode [] h = refl
boundary-hex_encode (b ∷ bytes) h = ground arith

boundary_digit : (d : ℕ) → d < 16 → boundary (hex_digit d ∷ []) ≡ true
unfolding boundary
boundary_digit d h = ground arith

hex_pairs_step {ℓ} :
    {E : Type ℓ} (e : E) (a b v : ℕ) (rest vs : List ℕ)
    → boundary (a ∷ []) ≡ true
    → boundary rest ≡ true
    → hex_pair a b ≡ some v
    → hex_pairs e rest ≡ ok vs
    → hex_pairs e (a ∷ b ∷ rest) ≡ ok (v ∷ vs)
hex_pairs_step e a b v rest vs p q r s = unfold hex_pairs in rw (p, q, r, s)

-- Reading the pairs of a hexadecimal text gives back the bytes.
pub hex_pairs-hex_encode {ℓ} :
    {E : Type ℓ} (e : E) (bytes : List ℕ)
    → All IsByte bytes
    → hex_pairs e (hex_encode bytes) ≡ ok bytes
unfolding hex_encode
hex_pairs-hex_encode e [] h = unfold hex_pairs in refl
hex_pairs-hex_encode e (b ∷ bytes) h =
    hex_pairs_step e (hex_digit (b / 16)) (hex_digit (b % 16)) b (hex_encode bytes) bytes
      (boundary_digit (b / 16) (omega arith)) (boundary-hex_encode bytes h.1)
      (hex_pair-hex_digit b h.0) (hex_pairs-hex_encode e bytes h.1)

hex_pair-IsByte : (a b v : ℕ) → hex_pair a b ≡ some v → IsByte v
unfolding hex_pair
hex_pair-IsByte a b v h = ground arith

pair_inv {ℓ} :
    {E : Type ℓ} (e : E) (t : Bool) (o : Option ℕ) (r : Outcome E (List ℕ)) (vs : List ℕ)
    → (if t then cons_byte e o r else panic) ≡ ok vs
    → (v : ℕ) × (ws : List ℕ) × (o ≡ some v) × (r ≡ ok ws) × (vs ≡ v ∷ ws)
unfolding cons_byte
pair_inv e true (some v) (ok ws) vs h = (v, ws, refl, refl, cc)
pair_inv e true (some v) (err x) vs h = cc
pair_inv e true (some v) panic vs h = cc
pair_inv e true none r vs h = cc
pair_inv e false o r vs h = cc

-- What the pairs of a text read as: bytes, one for each pair.
pub hex_pairs_shape {ℓ} :
    {E : Type ℓ} (e : E) (text vs : List ℕ)
    → hex_pairs e text ≡ ok vs
    → All IsByte vs × (length vs ≡ length text / 2)
unfolding hex_pairs
hex_pairs_shape e [] [] h = omega arith
hex_pairs_shape e [] (v ∷ vs) h = cc
hex_pairs_shape e (a ∷ []) [] h = omega arith
hex_pairs_shape e (a ∷ []) (v ∷ vs) h = cc
hex_pairs_shape e (a ∷ b ∷ rest) vs h =
    let (v, ws, p, r, eq) = pair_inv e _ (hex_pair a b) (hex_pairs e rest) vs h in
    let (bytes, len) = hex_pairs_shape e rest ws r in
    rw eq ((hex_pair-IsByte a b v p, bytes), omega (arith, len))
