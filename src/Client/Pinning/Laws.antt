-- ===== src/Client/Pinning/Laws.antt =====
-- Which servers a client in Reality mode accepts, and what it sends to the others.
use reliz_protocol.Base.{
  ℕ, ◌≡◌, ◌≢◌, ◌↔◌, refl, sym, ap, ◌∙◌, List, true, Bool-cases, inl, inr, same, same_sound,
  same_refl, Outcome, ok, err, panic,
}
use reliz_protocol.Base.Utf8.{Str, chars}
use reliz_protocol.Base.Io.{Read}
use reliz_protocol.Conn.{Failure, message, Conn, lift, continue, ◌>>=◌}
use reliz_protocol.Client.UserId.{parse_hex_32}
use reliz_protocol.Client.Reality.{connect_reality}
use reliz_protocol.Client.Pinning.{
  FingerprintVerifier, TlsConfig, Tls, build_reality_tls_config, bad_key, configured,
  verify_server_cert, accepted, verifier_of, server_name, tls_connect, connect_tls,
}

configured-eq-ok :
    (r : Outcome Failure (List ℕ)) (config : TlsConfig)
    → configured (bad_key r) ≡ ok config
    → r ≡ ok config.verifier.expected
unfolding configured bad_key
configured-eq-ok (ok fp) config e = ap ok (cc e)
configured-eq-ok (err x) config e = cc e
configured-eq-ok panic config e = cc e

expected-eq :
    (text : Str) (config : TlsConfig)
    → build_reality_tls_config text ≡ ok config
    → parse_hex_32 text ≡ ok config.verifier.expected
unfolding build_reality_tls_config
expected-eq text config e = configured-eq-ok (parse_hex_32 text) config e

module _ (tls : Tls) where
  open tls use {sha256, Server, certificate}

  verified :
      (v : FingerprintVerifier) (cert : List ℕ)
      → verify_server_cert tls v cert ≡ ok tt
      → sha256 cert ≡ v.expected
  unfolding verify_server_cert
  verified v cert e = elim (Bool-cases (same (sha256 cert) v.expected)) [
    | inl h ↦ same_sound (sha256 cert) v.expected h
    | inr h ↦ cc (rw h at e)
  ]

  pinned :
      (v : FingerprintVerifier) (cert : List ℕ)
      → sha256 cert ≡ v.expected
      → verify_server_cert tls v cert ≡ ok tt
  unfolding verify_server_cert
  pinned v cert e = rw (e, same_refl v.expected) refl

  -- A configuration that was built from a key accepts a certificate exactly when the key is the
  -- text of the certificate's digest: when `parse_hex_32` reads the digest from it.
  pub build_reality_tls_config-pins :
      (text : Str) (config : TlsConfig) (cert : List ℕ)
      → build_reality_tls_config text ≡ ok config
      → (verify_server_cert tls config.verifier cert ≡ ok tt)
        ↔ (parse_hex_32 text ≡ ok (sha256 cert))
  build_reality_tls_config-pins text config cert e = (
    λ h. expected-eq text config e ∙ ap ok (sym (verified config.verifier cert h)),
    λ h. pinned config.verifier cert (cc (h, expected-eq text config e)),
  )

  accepted-ok : (r : Outcome Str (Unit {0})) → accepted tls r ≡ true → r ≡ ok tt
  unfolding accepted
  accepted-ok (ok u) h = refl
  accepted-ok (err e) h = cc h
  accepted-ok panic h = cc h

  -- A connection that has failed with nothing written.
  pub record IsRefused (c : Conn) (r : Outcome Failure (Unit {0}) × Conn) : Type 0 where
    pub failed : r.0 ≢ ok tt
    pub untouched : r.1 ≡ c

  refused_connect :
      (config : TlsConfig) (server : Server)
      → sha256 (certificate server) ≢ config.verifier.expected
      → (e : Failure) × (tls_connect tls config server ≡ err e)
  unfolding tls_connect verifier_of
  refused_connect config server other =
      elim (Bool-cases (tls.handshake (verifier_of tls config.verifier) server)) [
        | inl h ↦ absurd (
            other (
              verified config.verifier (certificate server) (
                accepted-ok _ (tls.handshake_verifies (verifier_of tls config.verifier) server h))))
        | inr h ↦ rw h (message (chars "TLS handshake failed"), refl)
      ]

  server_name-IsRefused :
      (config : TlsConfig) (mask_domain : Str) (server : Server) (response : Read) (c : Conn)
      → sha256 (certificate server) ≢ config.verifier.expected
      → IsRefused c (
          continue (lift (server_name tls mask_domain) c) (λ named.
            lift (tls_connect tls config server)
            >>= (λ connected. connect_reality mask_domain response)))
  unfolding server_name
  server_name-IsRefused config mask_domain server response c other =
      let (e, refused) = refused_connect config server other in
      elim (Bool-cases (tls.is_server_name mask_domain)) [
        | inl h ↦ rw (h, refused) (record { failed = λ x. cc x; untouched = refl })
        | inr h ↦ rw h (record { failed = λ x. cc x; untouched = refl })
      ]

  refused :
      (o : Outcome Failure TlsConfig) (mask_domain : Str) (server : Server) (response : Read)
      (c : Conn)
      → ((config : TlsConfig)
          → o ≡ ok config
          → sha256 (certificate server) ≢ config.verifier.expected)
      → IsRefused c (
          continue (lift o c) (λ config. lift (server_name tls mask_domain) >>= (λ named.
            lift (tls_connect tls config server)
            >>= (λ connected. connect_reality mask_domain response))))
  refused (ok config) mask_domain server response c other =
      server_name-IsRefused config mask_domain server response c (other config refl)
  refused (err e) mask_domain server response c other = (record {
    failed = λ x. cc x;
    untouched = refl;
  })
  refused panic mask_domain server response c other = (record {
    failed = λ x. cc x;
    untouched = refl;
  })

  -- The token goes only to a server that presents the pinned certificate, which is not to say that
  -- the server holds the key of it. When the digest of the certificate that the server presents is
  -- not what `parse_hex_32` reads from the configured key, `connect_reality` does not succeed, and
  -- no byte of the request is sent and none read, whatever the domain and the server's response.
  pub connect_tls-refuses :
      (reality_auth_key mask_domain : Str) (server : Server) (response : Read) (c : Conn)
      → parse_hex_32 reality_auth_key ≢ ok (sha256 (certificate server))
      → IsRefused c (connect_tls tls reality_auth_key mask_domain server response c)
  unfolding connect_tls
  connect_tls-refuses key mask_domain server response c other =
      refused (build_reality_tls_config key) mask_domain server response c
        (λ config e same. other (expected-eq key config e ∙ ap ok (sym same)))
