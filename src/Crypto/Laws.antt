-- ===== src/Crypto/Laws.antt =====
-- The sizes and the round trip of `GhostCipher`.
use reliz_protocol.Base.{
  ℕ, ◌+◌, ◌≤◌, ◌≡◌, List, ◌++◌, some, length, length-append, take-append, drop-append, le→ltb, ok,
  arith,
}
use reliz_protocol.Base.Random.{Rng}
use reliz_protocol.Crypto.{
  Aead, GhostCipher, new, encrypted_size, encrypt_with, encrypt, decrypt, derive_key, nonce_size,
  tag_size,
}

pub encrypted_size_lem : (n : ℕ) → encrypted_size n ≡ n + 28
encrypted_size_lem n = unfold encrypted_size in omega arith

module _ (aead : Aead) where
  -- A derived key is accepted.
  pub new-derive_key :
      (user_id secret : List ℕ)
      → new (derive_key aead user_id secret) ≡ ok (record { key = derive_key aead user_id secret })
  new-derive_key user_id secret = unfold new derive_key in rw (aead.length-hkdf secret user_id _)

  decrypt_lem :
      (c : GhostCipher) (nonce body plaintext : List ℕ)
      → length nonce ≡ nonce_size
      → tag_size ≤ length body
      → aead.unseal c.key nonce body ≡ some plaintext
      → decrypt aead c (nonce ++ body) ≡ ok plaintext
  decrypt_lem c nonce body plaintext hn hb e =
      unfold decrypt in
      rw (
        le→ltb (length (nonce ++ body)) 28 (omega (arith, length-append nonce body)),
        take-append 12 nonce body hn,
        drop-append 12 nonce body hn,
        e,
      )

  -- Under a nonce of twelve bytes, a message that the cipher takes is encrypted to
  -- `encrypted_size` bytes, and the same key decrypts them to the message.
  pub decrypt-encrypt_with :
      (c : GhostCipher) (nonce plaintext : List ℕ)
      → length nonce ≡ nonce_size
      → length plaintext ≤ aead.max_len
      → (bytes : List ℕ) × (encrypt_with aead c nonce plaintext ≡ ok bytes)
        × (length bytes ≡ encrypted_size (length plaintext))
        × (decrypt aead c bytes ≡ ok plaintext)
  decrypt-encrypt_with c nonce plaintext hn hp =
      let (body, sealed, len, opens) = aead.seals c.key nonce plaintext hp in
      (
        nonce ++ body,
        (unfold encrypt_with in rw sealed),
        (unfold encrypted_size in omega (arith, length-append nonce body)),
        decrypt_lem c nonce body plaintext hn (omega arith) opens,
      )

-- `encrypt` of a message that the cipher takes succeeds, with `encrypted_size` bytes, and the same
-- key decrypts them to the message, whatever the random generator's state.
pub decrypt-encrypt :
    (rng : Rng) (aead : Aead) (c : GhostCipher) (plaintext : List ℕ) (s : rng.State)
    → length plaintext ≤ aead.max_len
    → (bytes : List ℕ) × ((encrypt rng aead c plaintext s).0 ≡ ok bytes)
      × (length bytes ≡ encrypted_size (length plaintext))
      × (decrypt aead c bytes ≡ ok plaintext)
decrypt-encrypt rng aead c plaintext s h =
    let (bytes, e, len, d) =
      decrypt-encrypt_with aead c (rng.fill nonce_size s).0 plaintext (rng.length-fill _ s) h in
    (bytes, (unfold encrypt in e), len, d)
