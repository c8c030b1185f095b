-- ===== src/Client/Reality.antt =====
-- `connect_reality` (ghost-client/src/tunnel.rs) behind the TLS handshake.
use reliz_protocol.Base.{
  Bool, true, false, ◌||◌, Option, none, some, if◌then◌else◌, ℕ, List, ◌++◌, ◌∷◌, [],
}
use reliz_protocol.Base.Utf8.{Str, chars, utf8, from_utf8_lossy}
use reliz_protocol.Base.Io.{Read, chunk, read_error}
use reliz_protocol.Base.Search.{behind}
use reliz_protocol.Conn.{Handler, message, io, pure, fail, ◌>>◌, send}
use reliz_protocol.Base.Hex.{hex_encode}

unfoldable pub default_key : List ℕ
default_key = utf8 (chars "ghost_default_key!")

-- `hex_encode(b"ghost_default_key!")`
unfoldable pub auth_token : Str
auth_token = hex_encode default_key

abbrev pub crlf : Str
crlf = 13 ∷ 10 ∷ []

-- The `format!` of the request, up to the header of the token, from its blank, and behind it.
abbrev pub opening : Str
opening = chars "GET /ghost HTTP/1.1" ++ (crlf ++ chars "Host: ")

abbrev pub closing : Str
closing =
    crlf
    ++ (chars "Connection: upgrade" ++ (crlf ++ (chars "Upgrade: ghost-tunnel" ++ (crlf ++ crlf))))

unfoldable pub request : Str → Str → Str
request mask_domain token =
    opening ++ (mask_domain ++ (crlf ++ (chars "X-Ghost-Auth: " ++ (token ++ closing))))

unfoldable pub any_text : Option Str → Bool
any_text none = false
any_text (some rest) = true

-- `str::contains`
unfoldable pub contains_text : Str → Str → Bool
unfolding any_text
contains_text pattern_text text = any_text (behind pattern_text text)

unfoldable pub accepts : List ℕ → Bool
accepts bytes =
    let response = from_utf8_lossy bytes in
    contains_text (chars "200 OK") response
    || contains_text (chars "Ghost Proxy") response
    || contains_text (chars "101 Switching Protocols") response

-- The test of what the read of the response gave.
answered : Read → Handler (Unit {0})
answered read_error = fail io
answered (chunk []) = fail (message (chars "Reality auth failed: server closed connection"))
answered (chunk (b ∷ bytes)) =
    if accepts (b ∷ bytes)
    then pure tt
    else fail (message (chars "Reality auth failed: unexpected response"))

unfoldable pub connect_reality : Str → Read → Handler (Unit {0})
unfolding answered
connect_reality mask_domain response = do
  send (utf8 (request mask_domain auth_token))
  answered response
