-- ===== src/Checks/Pinning.antt =====
-- The pinned certificate of Reality mode at concrete inputs.
use reliz_protocol.Base.{ℕ, ◌≡◌, ◌≢◌, ◌↔◌, refl, List, [], ◌∷◌, length, replicate, ok, true, arith}
use reliz_protocol.Base.Io.{chunk, closed}
use reliz_protocol.Base.Utf8.{chars, utf8}
use reliz_protocol.Base.Hex.{hex_encode}
use reliz_protocol.Conn.{Conn}
use reliz_protocol.Conn.Laws.{at}
use reliz_protocol.Client.UserId.{parse_hex_32, parse_hex_32-hex_encode}
use reliz_protocol.Client.Pinning.{
  Tls, TlsConfig, build_reality_tls_config, verify_server_cert, connect_tls,
}
use reliz_protocol.Client.Pinning.Laws.{
  build_reality_tls_config-pins, IsRefused, connect_tls-refuses,
}

-- A digest that counts, and a handshake that only verifies.
abbrev counting : Tls
counting = record {
  sha256 = λ bytes. replicate 32 (length bytes);
  is_server_name = λ name. true;
  Server = List ℕ;
  certificate = λ s. s;
  handshake = λ verifier s. verifier.accepts_cert s;
  handshake_verifies = λ verifier s h. h;
}

abbrev pinned_key : List ℕ
pinned_key = hex_encode (replicate 32 3)

abbrev a_config : TlsConfig
a_config = record {
  verifier = record { expected = replicate 32 3 };
  alpn_protocols = utf8 (chars "h2") ∷ utf8 (chars "http/1.1") ∷ [];
}

builds : build_reality_tls_config pinned_key ≡ ok a_config
builds =
    unfold build_reality_tls_config in
    rw (parse_hex_32-hex_encode (replicate 32 3) refl (omega arith)) refl

build_reality_tls_config-pins_example :
    (verify_server_cert counting a_config.verifier (7 ∷ 8 ∷ 9 ∷ []) ≡ ok tt)
    ↔ (parse_hex_32 pinned_key ≡ ok (replicate 32 3))
build_reality_tls_config-pins_example =
    build_reality_tls_config-pins counting pinned_key a_config (7 ∷ 8 ∷ 9 ∷ []) builds

another : parse_hex_32 pinned_key ≢ ok (replicate 32 2)
another e = cc (e, parse_hex_32-hex_encode (replicate 32 3) refl (omega arith))

abbrev fresh_stream : Conn
fresh_stream = at [] closed [] 1000

connect_tls-refuses_example : IsRefused counting fresh_stream (
    connect_tls counting pinned_key
      (chars "www.apple.com")
      (1 ∷ 2 ∷ [])
      (chunk (chars "200 OK"))
      fresh_stream)
connect_tls-refuses_example =
    connect_tls-refuses counting pinned_key (chars "www.apple.com") (1 ∷ 2 ∷ [])
      (chunk (chars "200 OK")) fresh_stream another
