-- ===== src/Checks/Guarded.antt =====
-- A session of the Reality mode at concrete bytes.
use reliz_protocol.Base.{same, ◌-◌, ℕ, ◌≡◌, refl, List, [], ◌∷◌, ◌++◌, length, replicate, some, ok}
use reliz_protocol.Base.Io.{closed, chunk, read_exact, write_all}
use reliz_protocol.Base.Bytes.{get_u8, get_u16, copy_to_bytes}
use reliz_protocol.Base.Hex.{hex_encode}
use reliz_protocol.Base.Search.{behind, strip_prefix, take_token, trim_start, is_whitespace}
use reliz_protocol.Common.Addr
use reliz_protocol.Common.Frame
use reliz_protocol.Crypto
use reliz_protocol.Crypto.{derive_key, decrypt}
use reliz_protocol.Base.Utf8.{Str, chars, utf8, from_utf8_lossy, pieces, replaced, utf8_char}
use reliz_protocol.Conn.{Conn, recv, send}
use reliz_protocol.Conn.Laws.{at}
use reliz_protocol.Server.Handler.{Session, open_session, contains, resolve_target}
use reliz_protocol.Server.Reality.{crlf, switching, detect_ghost_auth, presented, serve}
use reliz_protocol.Server.Reality.Guarded.{IsGuarded, serve-IsGuarded}
use reliz_protocol.Checks.Instances.{transparent}
use reliz_protocol.Checks.Client.{some_id}
use reliz_protocol.Checks.Session.{one_host, server_state}
use reliz_protocol.Checks.Admitted.{sealed}

abbrev key_text : Str
key_text = replicate 64 b'c'

abbrev asking : List ℕ
asking = chars "X-Ghost-Auth: " ++ (key_text ++ crlf)

abbrev behind_request : Conn
behind_request = at (some_id ++ (0 ∷ length sealed ∷ (sealed ++ (9 ∷ [])))) closed [] 200

guarded :
    (session : Session) × (serve transparent one_host server_state key_text
        (chars "a.b")
        (chunk asking)
        behind_request
      ≡ (ok (some session), at (9 ∷ []) closed switching (200 - length switching)))
unfolding serve detect_ghost_auth presented behind from_utf8_lossy strip_prefix utf8 take_token
    trim_start is_whitespace same send write_all open_session recv read_exact contains hex_encode
    Crypto.new derive_key decrypt Frame.decode get_u8 copy_to_bytes Addr.decode get_u16
    resolve_target pieces replaced utf8_char
guarded = (_, refl)

serve-IsGuarded_example :
    IsGuarded transparent one_host server_state key_text
      (chars "a.b")
      (chunk asking)
      guarded.0
      behind_request
      (at (9 ∷ []) closed switching (200 - length switching))
serve-IsGuarded_example =
    serve-IsGuarded transparent one_host server_state key_text (chars "a.b") (chunk asking)
      guarded.0 behind_request (at (9 ∷ []) closed switching (200 - length switching)) guarded.1
