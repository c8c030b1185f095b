-- ===== src/Server/Reality.antt =====
-- What a peer of the Reality mode gets behind the TLS handshake: `detect_ghost_auth` and the
-- spawned task of `run_with_reality` (ghost-server/src/lib.rs).
pub mod Auth
pub mod Guarded
use reliz_protocol.Base.{
  ℕ, List, [], ◌∷◌, ◌++◌, Bool, true, false, ◌&&◌, Option, none, some, length, same, ◌==◌,
  if◌then◌else◌, Outcome, ok, err, panic,
}
use reliz_protocol.Base.Io.{Read, chunk, read_error}
use reliz_protocol.Base.Utf8.{Str, chars, utf8, from_utf8_lossy}
use reliz_protocol.Base.Search.{behind, trim_start, take_token}
use reliz_protocol.Crypto.{Aead}
use reliz_protocol.Conn.{Failure, Handler, Conn, pure, ◌>>=◌, ◌>>◌, send}
use reliz_protocol.Server.Handler.{ServerState, Network, Session, open_session}

token_of : Option Str → Option Str
token_of none = none
token_of (some remainder) = some (take_token (trim_start remainder))

-- The token that a request presents.
unfoldable pub presented : List ℕ → Option Str
unfolding token_of
presented bytes = token_of (behind (chars "X-Ghost-Auth:") (from_utf8_lossy bytes))

is_key : Str → Option Str → Bool
is_key auth_key_hex none = false
is_key auth_key_hex (some token) = length (utf8 token) == 64 && same token auth_key_hex

unfoldable pub detect_ghost_auth : List ℕ → Str → Bool
unfolding is_key
detect_ghost_auth bytes auth_key_hex = is_key auth_key_hex (presented bytes)

abbrev pub crlf : Str
crlf = 13 ∷ 10 ∷ []

abbrev pub switching : List ℕ
switching =
    chars "HTTP/1.1 101 Switching Protocols"
    ++ (crlf
        ++ (chars "Upgrade: ghost-tunnel"
            ++ (crlf ++ (chars "Connection: upgrade" ++ (crlf ++ crlf)))))

unfoldable pub redirect : Str → List ℕ
redirect mask_domain = utf8 (
    chars "HTTP/1.1 301 Moved Permanently"
    ++ (crlf
        ++ (chars "Location: https://"
            ++ (mask_domain
                ++ (crlf
                    ++ (chars "Content-Length: 0"
                        ++ (crlf ++ (chars "Connection: close" ++ (crlf ++ crlf)))))))))

-- `let _ = ...`: a failed write is ignored.
ignored : Outcome Failure (Unit {0}) × Conn → Outcome Failure (Unit {0}) × Conn
ignored (ok _, c) = (ok tt, c)
ignored (err _, c) = (ok tt, c)
ignored (panic, c) = (panic, c)

attempt : Handler (Unit {0}) → Handler (Unit {0})
unfolding ignored
attempt m c = ignored (m c)

-- The task behind the handshake, on what its first read gave: a session, if the peer got one.
module _ (aead : Aead) (net : Network) (state : ServerState) (auth_key mask_domain : Str) where
  tunnel : Handler (Option Session)
  tunnel = do send switching; session ← open_session aead net state; pure (some session)

  masked : Handler (Option Session)
  unfolding attempt
  masked = do attempt (send (redirect mask_domain)); pure none

  unfoldable pub serve : Read → Handler (Option Session)
  unfolding tunnel masked
  serve read_error = pure none
  serve (chunk []) = pure none
  serve (chunk (b ∷ bytes)) = if detect_ghost_auth (b ∷ bytes) auth_key then tunnel else masked
