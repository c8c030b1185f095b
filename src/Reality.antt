-- ===== src/Reality.antt =====
-- The Reality server of ghost-reality/src/reality_server.rs, behind the TLS handshake.
pub mod Agreement
pub mod Ja4
pub mod TlsWrapper
use reliz_protocol.Base.{
  ℕ, List, [], ◌∷◌, ◌++◌, Bool, true, false, Option, none, some, length, same, ◌==◌, if◌then◌else◌,
}
use reliz_protocol.Base.Io.{Read, chunk, read_error}
use reliz_protocol.Base.Utf8.{Str, chars, utf8, from_utf8_lossy}
use reliz_protocol.Base.Search.{behind, trim_start, take_token}
use reliz_protocol.Base.Hex.{hex_encode}
use reliz_protocol.Conn.{Handler, pure, fail, io, ◌>>=◌, ◌>>◌, send}

unfoldable pub create_auth_token : List ℕ → Str
create_auth_token auth_key = hex_encode auth_key

is_token : List ℕ → Option Str → Bool
is_token auth_key none = false
is_token auth_key (some remainder) =
    let token = take_token (trim_start remainder) in
    if length (utf8 token) == 64 then same token (hex_encode auth_key) else false

unfoldable pub detect_ghost_auth : List ℕ → List ℕ → Bool
unfolding is_token
detect_ghost_auth bytes auth_key =
    is_token auth_key (behind (chars "X-Ghost-Auth:") (from_utf8_lossy bytes))

abbrev pub crlf : Str
crlf = 13 ∷ 10 ∷ []

-- The placeholder for a client, and the redirect for everyone else.
abbrev pub stub : List ℕ
stub =
    chars "HTTP/1.1 200 OK"
    ++ (crlf ++ (chars "Content-Length: 12" ++ (crlf ++ (crlf ++ chars "Ghost Proxy!"))))

unfoldable pub mask_response : Str → List ℕ
mask_response mask_domain = utf8 (
    chars "HTTP/1.1 301 Moved Permanently"
    ++ (crlf
        ++ (chars "Location: https://"
            ++ (mask_domain
                ++ (crlf
                    ++ (chars "Content-Length: 0"
                        ++ (crlf ++ (chars "Connection: close" ++ (crlf ++ crlf)))))))))

-- The answer to what the first read gave.
unfoldable pub handle_tls_connection : List ℕ → Str → Read → Handler (Unit {0})
handle_tls_connection auth_key mask_domain read_error = fail io
handle_tls_connection auth_key mask_domain (chunk []) = pure tt
handle_tls_connection auth_key mask_domain (chunk (b ∷ bytes)) =
    if detect_ghost_auth (b ∷ bytes) auth_key then send stub else send (mask_response mask_domain)
