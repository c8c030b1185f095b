-- ===== src/Client/Pinning.antt =====
-- `build_reality_tls_config` and its `FingerprintVerifier` (ghost-client/src/tunnel.rs), and
-- `connect_reality` with the TLS handshake in front.
pub mod Laws
use reliz_protocol.Base.{
  ℕ, ◌≡◌, List, [], ◌∷◌, ◌++◌, Bool, true, false, same, if◌then◌else◌, Outcome, ok, err, panic,
}
use reliz_protocol.Base.Utf8.{Str, chars, utf8}
use reliz_protocol.Base.Hex.{hex_encode}
use reliz_protocol.Base.Io.{Read}
use reliz_protocol.Conn.{Failure, message, Handler, lift, ◌>>=◌, ◌>>◌}
use reliz_protocol.Client.UserId.{parse_hex_32}
use reliz_protocol.Client.Reality.{connect_reality}

-- `rustls::SignatureScheme`, as far as the code names it.
pub data SignatureScheme : Type 0 where
  rsa_pkcs1_sha256 : SignatureScheme
  rsa_pkcs1_sha384 : SignatureScheme
  rsa_pkcs1_sha512 : SignatureScheme
  ecdsa_nistp256_sha256 : SignatureScheme
  ecdsa_nistp384_sha384 : SignatureScheme
  ed25519 : SignatureScheme

pub record FingerprintVerifier : Type 0 where
  pub expected : List ℕ

-- The part of `rustls::ClientConfig` that the code sets.
pub record TlsConfig : Type 0 where
  pub verifier : FingerprintVerifier
  pub alpn_protocols : List (List ℕ)

-- What rustls asks a verifier: of the certificate, and of the signature over a message for a
-- certificate, in TLS 1.2 and in TLS 1.3.
pub record ServerCertVerifier : Type 0 where
  pub accepts_cert : List ℕ → Bool
  pub accepts_tls12 : List ℕ → List ℕ → List ℕ → Bool
  pub accepts_tls13 : List ℕ → List ℕ → List ℕ → Bool

-- What the code takes from sha2 and rustls: a digest, and a handshake with a server. A handshake
-- that completes has had its verifier accept the certificate that the server presented.
pub record Tls : Type 1 where
  pub sha256 : List ℕ → List ℕ
  pub is_server_name : Str → Bool
  pub Server : Type 0
  pub certificate : Server → List ℕ
  pub handshake : ServerCertVerifier → Server → Bool
  pub handshake_verifies :
      (verifier : ServerCertVerifier) (s : Server)
      → handshake verifier s ≡ true
      → verifier.accepts_cert (certificate s) ≡ true

abbrev pub supported_verify_schemes : List SignatureScheme
supported_verify_schemes =
    rsa_pkcs1_sha256 ∷ rsa_pkcs1_sha384 ∷ rsa_pkcs1_sha512 ∷ ecdsa_nistp256_sha256
    ∷ ecdsa_nistp384_sha384 ∷ ed25519 ∷ []

-- The error of `parse_hex_32` under the text that `map_err` puts before it.
bad_key : Outcome Failure (List ℕ) → Outcome Failure (List ℕ)
bad_key (ok bytes) = ok bytes
bad_key (err e) = err (message (chars "Invalid reality_auth_key"))
bad_key panic = panic

configured : Outcome Failure (List ℕ) → Outcome Failure TlsConfig
configured (ok fp) = ok (record {
  verifier = record { expected = fp };
  alpn_protocols = utf8 (chars "h2") ∷ utf8 (chars "http/1.1") ∷ [];
})
configured (err e) = err e
configured panic = panic

unfoldable pub build_reality_tls_config : Str → Outcome Failure TlsConfig
unfolding bad_key configured
build_reality_tls_config reality_auth_key_hex =
    configured (bad_key (parse_hex_32 reality_auth_key_hex))

module _ (tls : Tls) where
  open tls use {sha256, is_server_name, Server, handshake}

  -- The error is that of `rustls::Error::General`, its text.
  unfoldable pub verify_server_cert : FingerprintVerifier → List ℕ → Outcome Str (Unit {0})
  verify_server_cert v end_entity =
      if same (sha256 end_entity) v.expected
      then ok tt
      else err (
          chars "Certificate fingerprint mismatch: expected "
          ++ (hex_encode v.expected ++ (chars ", got " ++ hex_encode (sha256 end_entity))))

  -- Both take every signature.
  pub verify_tls12_signature :
      FingerprintVerifier → List ℕ → List ℕ → List ℕ → Outcome Str (Unit {0})
  verify_tls12_signature v signed cert dss = ok tt

  pub verify_tls13_signature :
      FingerprintVerifier → List ℕ → List ℕ → List ℕ → Outcome Str (Unit {0})
  verify_tls13_signature v signed cert dss = ok tt

  accepted : Outcome Str (Unit {0}) → Bool
  accepted (ok u) = true
  accepted (err e) = false
  accepted panic = false

  server_name : Str → Outcome Failure (Unit {0})
  server_name mask_domain =
      if is_server_name mask_domain then ok tt else err (message (chars "Invalid SNI domain"))

  -- The verifier as rustls sees it.
  verifier_of : FingerprintVerifier → ServerCertVerifier
  unfolding accepted verify_tls12_signature verify_tls13_signature
  verifier_of v = record {
    accepts_cert = λ cert. accepted (verify_server_cert v cert);
    accepts_tls12 = λ signed cert dss. accepted (verify_tls12_signature v signed cert dss);
    accepts_tls13 = λ signed cert dss. accepted (verify_tls13_signature v signed cert dss);
  }

  unfoldable pub tls_connect : TlsConfig → Server → Outcome Failure (Unit {0})
  unfolding verifier_of
  tls_connect config server =
      if handshake (verifier_of config.verifier) server
      then ok tt
      else err (message (chars "TLS handshake failed"))

  -- `connect_reality` from its beginning, on the stream inside TLS.
  unfoldable pub connect_tls : Str → Str → Server → Read → Handler (Unit {0})
  unfolding server_name
  connect_tls reality_auth_key mask_domain server response = do
    config ← lift (build_reality_tls_config reality_auth_key)
    named ← lift (server_name mask_domain)
    connected ← lift (tls_connect config server)
    connect_reality mask_domain response
