-- ===== src/Checks/Reality.antt =====
-- Requests of the Reality mode at concrete inputs.
use reliz_protocol.Base.{
  ℕ, ◌-◌, ◌≤◌, ◌≡◌, refl, List, [], length, replicate, true, false, none, arith, ok, err,
}
use reliz_protocol.Base.Io.{closed, chunk}
use reliz_protocol.Base.Utf8.{Str, chars, utf8, IsAscii-IsText}
use reliz_protocol.Base.Hex.{hex_encode}
use reliz_protocol.Conn.Laws.{at}
use reliz_protocol.Conn.{message}
use reliz_protocol.Client.Reality.{auth_token, default_key, request, connect_reality}
use reliz_protocol.EndToEnd.Masked.{IsUnmarked, connect_reality-serve}
use reliz_protocol.Server.Reality.{detect_ghost_auth, redirect, serve}
use reliz_protocol.Server.Reality.Auth.{
  IsPlain, request_not_empty, detect-hex_encode, detect-auth_token, serve_masks, serve-auth_token,
}
use reliz_protocol.Reality
use reliz_protocol.Reality.TlsWrapper.{no_extraction, authenticate, authenticate-handle_tls}
use reliz_protocol.Reality.Agreement.{detect_agrees, handle_tls-create_auth_token}
use reliz_protocol.Checks.Instances.{transparent}
use reliz_protocol.Checks.Session.{one_host, server_state}

abbrev mask : Str
mask = chars "www.apple.com"

mask-IsPlain : IsPlain mask
mask-IsPlain = (IsAscii-IsText mask (omega arith), omega arith)

abbrev auth_key : List ℕ
auth_key = replicate 32 0xc4

detect_run :
    detect_ghost_auth (utf8 (request mask (hex_encode auth_key))) (hex_encode auth_key) ≡ true
detect_run = detect-hex_encode mask auth_key mask-IsPlain (omega arith) refl

default_token_run : detect_ghost_auth (utf8 (request mask auth_token)) (hex_encode auth_key) ≡ false
default_token_run = detect-auth_token mask (hex_encode auth_key) mask-IsPlain

small_redirect : length (redirect mask) ≤ 200
unfolding redirect utf8
small_redirect = omega arith

masked_run :
    serve transparent one_host server_state
      (hex_encode auth_key)
      mask
      (chunk (utf8 (request mask auth_token)))
      (at [] closed [] 200)
    ≡ (ok none, at [] closed (redirect mask) (200 - length (redirect mask)))
masked_run =
    serve_masks transparent one_host server_state (hex_encode auth_key) mask
      (utf8 (request mask auth_token)) [] closed [] 200
      (detect-auth_token mask (hex_encode auth_key) mask-IsPlain)
      (request_not_empty mask auth_token) small_redirect

unknown_token_run :
    serve transparent one_host server_state
      (hex_encode auth_key)
      mask
      (chunk (utf8 (request mask auth_token)))
      (at (chars "x") closed [] 200)
    ≡ (ok none, at (chars "x") closed (redirect mask) (200 - length (redirect mask)))
unknown_token_run =
    serve-auth_token transparent one_host server_state (hex_encode auth_key) mask mask (chars "x")
      closed [] 200 mask-IsPlain small_redirect

detect_agrees_run :
    Reality.detect_ghost_auth (utf8 (request mask auth_token)) auth_key
    ≡ detect_ghost_auth (utf8 (request mask auth_token)) (hex_encode auth_key)
detect_agrees_run = detect_agrees (utf8 (request mask auth_token)) auth_key

handle_tls_run :
    Reality.handle_tls_connection auth_key mask
      (chunk (utf8 (request mask (Reality.create_auth_token auth_key))))
      (at [] closed [] 100)
    ≡ (ok tt, at [] closed Reality.stub 49)
handle_tls_run =
    handle_tls-create_auth_token mask mask auth_key [] closed [] 100 mask-IsPlain (omega arith) refl
      (omega arith)

mask-IsUnmarked : IsUnmarked mask
mask-IsUnmarked = (IsAscii-IsText mask (omega arith), omega arith, omega arith, omega arith)

connect_reality-serve_example :
    let asked = utf8 (request mask auth_token) in
    let (session, c) =
      serve transparent one_host server_state
        (hex_encode auth_key)
        mask
        (chunk asked)
        (at [] closed [] 200) in
    (session ≡ ok none)
    × (connect_reality mask (chunk c.output.written) (at [] closed [] 200) ≡ (
      err (message (chars "Reality auth failed: unexpected response")),
      at [] closed asked (200 - length asked),
    ))
connect_reality-serve_example =
    connect_reality-serve transparent one_host server_state (hex_encode auth_key) mask mask closed
      200 200 mask-IsPlain mask-IsUnmarked small_redirect small_request
  where
    small_request : length (utf8 (request mask auth_token)) ≤ 200
    small_request = unfold request utf8 auth_token hex_encode default_key in omega arith

authenticate-handle_tls_example :
    let asked = utf8 (request mask (Reality.create_auth_token auth_key)) in
    let (answer, c) =
      Reality.handle_tls_connection auth_key mask (chunk asked) (at [] closed [] 100) in
    (answer ≡ ok tt)
    × (authenticate mask auth_key (chunk c.output.written) (at [] closed [] 300)
        ≡ (err no_extraction, at [] closed asked (300 - length asked)))
authenticate-handle_tls_example =
    authenticate-handle_tls mask mask auth_key closed 100 300 mask-IsPlain (omega arith) refl
      (omega arith) small_asked
  where
    small_asked : length (utf8 (request mask (Reality.create_auth_token auth_key))) ≤ 300
    small_asked = unfold request utf8 hex_encode Reality.create_auth_token in omega arith
