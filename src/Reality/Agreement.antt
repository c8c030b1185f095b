-- ===== src/Reality/Agreement.antt =====
-- The Reality server of ghost-reality and the Reality mode of ghost-server.
use reliz_protocol.Base.{
  ℕ, ◌-◌, ◌≤◌, ◌<◌, ◌≡◌, refl, ◌∙◌, List, [], ◌∷◌, ◌++◌, Bool, true, false, ◌&&◌, length, All, same,
  ◌==◌, if◌then◌else◌, arith, ok, Option-cases, inl, inr,
}
use reliz_protocol.Base.Bytes.{IsByte}
use reliz_protocol.Base.Io.{Ending, chunk}
use reliz_protocol.Base.Utf8.{Str, chars, utf8, from_utf8_lossy}
use reliz_protocol.Base.Search.{behind, trim_start, take_token}
use reliz_protocol.Base.Hex.{hex_encode}
use reliz_protocol.Conn.Laws.{at, send_lem}
use reliz_protocol.Client.Reality.{request}
use reliz_protocol.Server
use reliz_protocol.Server.Reality.Auth.{IsPlain, detect-hex_encode, request_not_empty}
use reliz_protocol.Reality.{create_auth_token, detect_ghost_auth, stub, handle_tls_connection}

both_tests : (a b : Bool) → (if a then b else false) ≡ a && b
both_tests true b = refl
both_tests false b = refl

-- On every request and for every key, the detector of ghost-reality, which holds the key's bytes,
-- decides as the detector of ghost-server, which is configured with their hexadecimal text.
pub detect_agrees :
    (bytes key : List ℕ)
    → detect_ghost_auth bytes key ≡ Server.Reality.detect_ghost_auth bytes (hex_encode key)
detect_agrees bytes key =
    let found = behind (chars "X-Ghost-Auth:") (from_utf8_lossy bytes) in
    unfold detect_ghost_auth Server.Reality.detect_ghost_auth Server.Reality.presented in
    elim (Option-cases found) [
      | inl e ↦ rw e refl
      | inr (r, e) ↦ rw e (
          both_tests (length (utf8 (take_token (trim_start r))) == 64)
            (same (take_token (trim_start r)) (hex_encode key)))
    ]

handle_tls_stub :
    (mask_domain : Str) (key bytes rest : List ℕ) (e : Ending) (out : List ℕ) (room : ℕ)
    → detect_ghost_auth bytes key ≡ true
    → 0 < length bytes
    → length stub ≤ room
    → handle_tls_connection key mask_domain (chunk bytes) (at rest e out room)
      ≡ (ok tt, at rest e (out ++ stub) (room - length stub))
handle_tls_stub mask_domain key [] rest e out room found some_byte space = absurd (omega arith)
handle_tls_stub mask_domain key (b ∷ bytes) rest e out room found some_byte space =
    unfold handle_tls_connection in rw (found, send_lem e out room stub rest space)

-- A client that presents the token made for the server's key of 32 bytes, in a request for a mask
-- domain without a capital X, gets the placeholder, if the connection takes it.
pub handle_tls-create_auth_token :
    (d mask_domain : Str) (key rest : List ℕ) (e : Ending) (out : List ℕ) (room : ℕ)
    → IsPlain d
    → All IsByte key
    → length key ≡ 32
    → length stub ≤ room
    → handle_tls_connection key mask_domain
        (chunk (utf8 (request d (create_auth_token key))))
        (at rest e out room)
      ≡ (ok tt, at rest e (out ++ stub) (room - length stub))
handle_tls-create_auth_token d mask_domain key rest e out room h bytes len space =
    unfold create_auth_token in
    handle_tls_stub mask_domain key (utf8 (request d (hex_encode key))) rest e out room
      (detect_agrees (utf8 (request d (hex_encode key))) key ∙ detect-hex_encode d key h bytes len)
      (request_not_empty d (hex_encode key)) space
