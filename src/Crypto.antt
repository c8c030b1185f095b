-- ===== src/Crypto.antt =====
-- ghost-crypto: `GhostCipher` over an abstract AEAD, and the key derivation.
pub mod Laws
use reliz_protocol.Base.{
  ℕ, ◌+◌, ◌^◌, ◌≤◌, ◌<◌, ◌≡◌, List, ◌++◌, Option, none, some, length, take, drop, ltb, ◌==◌,
  if◌then◌else◌, Outcome, ok, err, All,
}
use reliz_protocol.Base.Bytes.{IsByte}
use reliz_protocol.Base.Random.{Rng}
use reliz_protocol.Base.Utf8.{Str, chars}

abbrev pub key_size : ℕ
key_size = 32

abbrev pub nonce_size : ℕ
nonce_size = 12

abbrev pub tag_size : ℕ
tag_size = 16

pub data CryptoError : Type 0 where
  encryption_failed : Str → CryptoError
  decryption_failed : Str → CryptoError
  invalid_key_length : ℕ → CryptoError

-- What the crates take from `chacha20poly1305` and `hkdf`: sealing a message of up to `max_len`
-- bytes gives it with a tag of 16 bytes, and opening what was sealed with the same key and nonce
-- gives the message; an expansion of HKDF-SHA256 to 32 bytes never fails.
pub record Aead : Type 0 where
  pub seal : (key nonce plaintext : List ℕ) → Option (List ℕ)
  pub unseal : (key nonce ciphertext : List ℕ) → Option (List ℕ)
  pub hkdf : (salt ikm info : List ℕ) → List ℕ
  pub error_text : Str
  pub max_len : ℕ
  pub frames_fit : 2 ^ 16 ≤ max_len
  pub seals :
      (key nonce plaintext : List ℕ)
      → length plaintext ≤ max_len
      → (c : List ℕ) × (seal key nonce plaintext ≡ some c)
        × (length c ≡ length plaintext + tag_size)
        × (unseal key nonce c ≡ some plaintext)
  pub length-hkdf : (salt ikm info : List ℕ) → length (hkdf salt ikm info) ≡ key_size

-- `GhostCipher` holds the key schedule; it is a function of the key.
pub record GhostCipher : Type 0 where
  pub key : List ℕ

unfoldable pub new : List ℕ → Outcome CryptoError GhostCipher
new key =
    if length key == key_size
    then ok (record { key = key })
    else err (invalid_key_length (length key))

unfoldable pub encrypted_size : ℕ → ℕ
encrypted_size plaintext_len = nonce_size + plaintext_len + tag_size

module _ (aead : Aead) where
  open aead use {seal, unseal, hkdf, error_text}

  sealed : List ℕ → Option (List ℕ) → Outcome CryptoError (List ℕ)
  sealed nonce none = err (encryption_failed error_text)
  sealed nonce (some ciphertext) = ok (nonce ++ ciphertext)

  -- `encrypt` with the nonce that the generator gave.
  unfoldable pub encrypt_with : GhostCipher → List ℕ → List ℕ → Outcome CryptoError (List ℕ)
  unfolding sealed
  encrypt_with cipher nonce plaintext = sealed nonce (seal cipher.key nonce plaintext)

  opened : Option (List ℕ) → Outcome CryptoError (List ℕ)
  opened none = err (decryption_failed error_text)
  opened (some plaintext) = ok plaintext

  unfoldable pub decrypt : GhostCipher → List ℕ → Outcome CryptoError (List ℕ)
  unfolding opened
  decrypt cipher bytes =
      if ltb (length bytes) (nonce_size + tag_size)
      then err (decryption_failed (chars "data too short"))
      else opened (unseal cipher.key (take nonce_size bytes) (drop nonce_size bytes))

  -- `derive_key`: the secret is the salt and the user id is the key material.
  unfoldable pub derive_key : List ℕ → List ℕ → List ℕ
  derive_key user_id secret = hkdf secret user_id (chars "ghost-v1")

module _ (rng : Rng) (aead : Aead) where
  open rng use {State, fill}

  -- A fresh nonce for each call.
  unfoldable pub encrypt : GhostCipher → List ℕ → State → Outcome CryptoError (List ℕ) × State
  unfolding encrypt_with
  encrypt cipher plaintext s =
      let (nonce, s1) = fill nonce_size s in (encrypt_with aead cipher nonce plaintext, s1)

  unfoldable pub generate_key : State → List ℕ × State
  generate_key s = fill key_size s
