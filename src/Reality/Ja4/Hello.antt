-- ===== src/Reality/Ja4/Hello.antt =====
-- The fingerprint of a ClientHello against those of profiles.
use reliz_protocol.Base.{ℕ, ◌≡◌, same, refl, subst, List, [], ◌∷◌, All, false, Option, some}
use reliz_protocol.Base.Utf8.{Str}
use reliz_protocol.Reality.Ja4.{
  Ja4Profile, tls_ver, calculate_ja4, verify_ja4, TlsMessage, client_hello, other_message,
  hello_ja4, first_hello, extract_ja4_from_client_hello,
}

-- The version that a ClientHello has in TLS 1.2, and by its standard in TLS 1.3 too.
abbrev pub IsLegacy : TlsMessage → Type 0
IsLegacy (client_hello version ciphers ext) = version ≡ 0x0303
IsLegacy other_message = Unit {0}

abbrev pub IsTls13 : Ja4Profile → Type 0
IsTls13 profile = profile.tls_version ≡ 0x0304

abbrev pub fingerprints : List Ja4Profile → List Str
fingerprints [] = []
fingerprints (profile ∷ profiles) = calculate_ja4 profile ∷ fingerprints profiles

-- The third characters differ.
profile-ne-hello :
    (profile : Ja4Profile) (ciphers : List ℕ) (ext : Option (List ℕ))
    → IsTls13 profile
    → same (calculate_ja4 profile) (hello_ja4 0x0303 ciphers ext) ≡ false
unfolding calculate_ja4 hello_ja4 tls_ver same
profile-ne-hello profile ciphers ext h = simp h refl

hello_refused :
    (profiles : List Ja4Profile) (ciphers : List ℕ) (ext : Option (List ℕ))
    → All IsTls13 profiles
    → verify_ja4 (hello_ja4 0x0303 ciphers ext) (fingerprints profiles) ≡ false
unfolding verify_ja4
hello_refused [] ciphers ext h = refl
hello_refused (profile ∷ profiles) ciphers ext h =
    rw (profile-ne-hello profile ciphers ext h.0) (hello_refused profiles ciphers ext h.1)

first_hello_refused :
    (messages : List TlsMessage) (ja4 : Str) (profiles : List Ja4Profile)
    → All IsLegacy messages
    → All IsTls13 profiles
    → first_hello messages ≡ some ja4
    → verify_ja4 ja4 (fingerprints profiles) ≡ false
unfolding first_hello
first_hello_refused [] ja4 profiles legacy tls13 e = cc
first_hello_refused (other_message ∷ messages) ja4 profiles legacy tls13 e =
    first_hello_refused messages ja4 profiles legacy.1 tls13 e
first_hello_refused (client_hello version ciphers ext ∷ messages) ja4 profiles legacy tls13 e =
    subst (λ s. verify_ja4 s (fingerprints profiles) ≡ false) same_text
      (hello_refused profiles ciphers ext tls13)
  where
    same_text : hello_ja4 0x0303 ciphers ext ≡ ja4
    same_text = cc (legacy.0, e)

-- A fingerprint that is extracted from a ClientHello of TLS 1.3 is in no list of fingerprints of
-- profiles of TLS 1.3: the version that the extraction reads is the one that TLS 1.3 keeps at the
-- value of TLS 1.2.
pub extracted_refused :
    (parse_tls_plaintext : List ℕ → Option (List TlsMessage)) (bytes : List ℕ) (ja4 : Str)
    (profiles : List Ja4Profile) (messages : List TlsMessage)
    → parse_tls_plaintext bytes ≡ some messages
    → All IsLegacy messages
    → All IsTls13 profiles
    → extract_ja4_from_client_hello parse_tls_plaintext bytes ≡ some ja4
    → verify_ja4 ja4 (fingerprints profiles) ≡ false
unfolding extract_ja4_from_client_hello
extracted_refused parse_tls_plaintext bytes ja4 profiles messages parsed legacy tls13 extracted =
    first_hello_refused messages ja4 profiles legacy tls13 (rw parsed at extracted)
