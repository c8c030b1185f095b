-- ===== src/Reality/Ja4.antt =====
-- JA4 fingerprints of TLS clients (ghost-reality/src/ja4.rs).
pub mod Profiles
pub mod Order
pub mod Hello
use reliz_protocol.Base.{
  ℕ, zero, suc, ◌+◌, ◌*◌, ◌-◌, ◌/◌, ◌%◌, ◌^◌, List, [], ◌∷◌, ◌++◌, Bool, true, false, ◌&&◌, ◌||◌,
  Option, none, some, length, same, ltb, leb, ◌==◌, if◌then◌else◌,
}
use Prim.Native.Nat.{bit_xor}
use reliz_protocol.Base.Utf8.{Str, chars, utf8}
use reliz_protocol.Base.Hex.{hex_digit}

pub record Ja4Profile : Type 0 where
  pub name : Str
  pub version : Str
  pub cipher_suites : List ℕ
  pub extensions : List ℕ
  pub supported_groups : List ℕ
  pub signature_algorithms : List ℕ
  pub alpn : List Str
  pub tls_version : ℕ

-- `format!("{:0width$x}", n)` of a number of at most 64 bits, whose digits are at most 16.
digits_of : ℕ → ℕ → ℕ → Str
digits_of zero width n = []
digits_of (suc fuel) width n =
    let front = digits_of fuel (width - 1) (n / 16) in
    if ltb n 16 && leb width 1 then hex_digit n ∷ [] else front ++ hex_digit (n % 16) ∷ []

unfoldable pub lower_hex : ℕ → ℕ → Str
unfolding digits_of
lower_hex width n = digits_of 16 width n

-- The FNV hash: `hash ^= b`, then a wrapping product.
unfoldable pub hash_bytes : ℕ → List ℕ → ℕ
hash_bytes hash [] = hash
hash_bytes hash (b ∷ bytes) = hash_bytes (bit_xor hash b * 0x01000193 % 2 ^ 32) bytes

unfoldable pub simple_hash : Str → Str
unfolding hash_bytes lower_hex
simple_hash s = lower_hex 8 (hash_bytes 0x811c9dc5 (utf8 s))

-- `sort` of numbers.
insert_sorted : ℕ → List ℕ → List ℕ
insert_sorted x [] = x ∷ []
insert_sorted x (y ∷ ys) = let rest = insert_sorted x ys in if leb x y then x ∷ y ∷ ys else y ∷ rest

unfoldable pub sort : List ℕ → List ℕ
unfolding insert_sorted
sort [] = []
sort (x ∷ xs) = insert_sorted x (sort xs)

hex_all : List ℕ → Str
hex_all [] = []
hex_all (e ∷ es) = lower_hex 4 e ++ hex_all es

-- `first().unwrap_or(&0)` and `last().unwrap_or(&0)`
abbrev first_or_zero : List ℕ → ℕ
first_or_zero [] = 0
first_or_zero (x ∷ _) = x

abbrev last_or_zero : List ℕ → ℕ
last_or_zero [] = 0
last_or_zero (x ∷ []) = x
last_or_zero (x ∷ y ∷ xs) = last_or_zero (y ∷ xs)

unfoldable pub tls_ver : ℕ → Str
tls_ver v = if v == 0x0304 then chars "t13" else if v == 0x0303 then chars "t12" else chars "txx"

unfoldable pub calculate_ja4 : Ja4Profile → Str
unfolding hex_all
calculate_ja4 profile =
    tls_ver profile.tls_version
    ++ (lower_hex 2 (length profile.cipher_suites)
        ++ (lower_hex 2 (length profile.extensions)
            ++ (lower_hex 4 (first_or_zero profile.cipher_suites)
                ++ (lower_hex 4 (last_or_zero profile.cipher_suites)
                    ++ simple_hash (hex_all (sort profile.extensions))))))

unfoldable pub verify_ja4 : Str → List Str → Bool
verify_ja4 client_ja4 [] = false
verify_ja4 client_ja4 (a ∷ allowed) = same a client_ja4 || verify_ja4 client_ja4 allowed

-- The messages of a record as `tls_parser` gives them; the extensions are raw bytes there.
pub data TlsMessage : Type 0 where
  client_hello : ℕ → List ℕ → Option (List ℕ) → TlsMessage
  other_message : TlsMessage

ext_len : Option (List ℕ) → ℕ
ext_len none = 0
ext_len (some bytes) = length bytes

unfoldable pub hello_ja4 : ℕ → List ℕ → Option (List ℕ) → Str
unfolding ext_len
hello_ja4 version ciphers ext =
    tls_ver version
    ++ (lower_hex 2 (length ciphers)
        ++ (lower_hex 2 (ext_len ext)
            ++ (lower_hex 4 (first_or_zero ciphers)
                ++ (lower_hex 4 (last_or_zero ciphers)
                    ++ lower_hex 8 (ext_len ext % 2 ^ 32 * 0x01000193 % 2 ^ 32)))))

-- The fingerprint of the first ClientHello.
unfoldable pub first_hello : List TlsMessage → Option Str
first_hello [] = none
first_hello (client_hello version ciphers ext ∷ messages) = some (hello_ja4 version ciphers ext)
first_hello (other_message ∷ messages) = first_hello messages

of_record : Option (List TlsMessage) → Option Str
of_record none = none
of_record (some messages) = first_hello messages

-- Over `parse_tls_plaintext`, with `none` for its error.
unfoldable pub extract_ja4_from_client_hello :
    (List ℕ → Option (List TlsMessage)) → List ℕ → Option Str
unfolding of_record
extract_ja4_from_client_hello parse_tls_plaintext bytes = of_record (parse_tls_plaintext bytes)
