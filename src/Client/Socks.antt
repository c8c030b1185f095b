-- ===== src/Client/Socks.antt =====
-- `handle_socks5_client` and `socks5_reply` of ghost-client/src/lib.rs, up to the call of
-- `proxy_through_ghost`: the handler returns the target address that it passes on.
pub mod Target
pub mod Runs
pub mod Heard
use reliz_protocol.Base.{
  ℕ, ◌+◌, ◌*◌, List, [], ◌∷◌, ◌++◌, Bool, true, false, ◌||◌, Option, none, some, length, take, drop,
  ltb, ◌==◌, if◌then◌else◌,
}
use reliz_protocol.Base.Bytes.{as_u8, be16}
use reliz_protocol.Base.Utf8.{Str, chars, utf8, from_utf8}
use reliz_protocol.Common.Types.{TargetAddr, no_addr, ip_v4, ip_v6, domain}
use reliz_protocol.Conn.{Handler, message, pure, fail, crash, ◌>>=◌, ◌>>◌, recv_into, send}

unfoldable pub socks5_reply : ℕ → TargetAddr → List ℕ
socks5_reply rep no_addr = 0x05 ∷ rep ∷ 0x00 ∷ 0x01 ∷ 0 ∷ 0 ∷ 0 ∷ 0 ∷ be16 0
socks5_reply rep (ip_v4 a) = 0x05 ∷ rep ∷ 0x00 ∷ 0x01 ∷ (a.ip ++ be16 a.port)
socks5_reply rep (ip_v6 a) = 0x05 ∷ rep ∷ 0x00 ∷ 0x04 ∷ (a.ip ++ be16 a.port)
socks5_reply rep (domain d p) =
    0x05 ∷ rep ∷ 0x00 ∷ 0x03 ∷ as_u8 (length (utf8 d)) ∷ (utf8 d ++ be16 p)

-- The size of `buf`.
abbrev pub buf_len : ℕ
buf_len = 256

-- `buf[..nmethods].iter().any(|&m| m == 0x00)`
unfoldable pub any_no_auth : List ℕ → Bool
any_no_auth [] = false
any_no_auth (m ∷ methods) = m == 0x00 || any_no_auth methods

pub read_methods : ℕ → Handler (List ℕ)
read_methods nmethods = if ltb 0 nmethods then recv_into buf_len nmethods else pure []

answer_methods : Bool → Handler (Unit {0})
answer_methods false = do
  send (0x05 ∷ 0xff ∷ [])
  fail (message (chars "Client doesn't support NO AUTH method"))
answer_methods true = send (0x05 ∷ 0x00 ∷ [])

-- The greeting: version and number of methods, then the methods.
pub greet : List ℕ → Handler (Unit {0})
unfolding any_no_auth answer_methods read_methods
greet (version ∷ nmethods ∷ []) =
    if version == 0x05
    then (do methods ← read_methods nmethods; answer_methods (any_no_auth methods))
    else fail (message (chars "Not a SOCKS5 connection"))
greet _ = crash

-- `u16::from_be_bytes` of the two bytes behind the address.
port_of : List ℕ → ℕ
port_of (hi ∷ lo ∷ _) = hi * 256 + lo
port_of _ = 0

target_v4 : List ℕ → TargetAddr
unfolding port_of
target_v4 buf = ip_v4 (record { ip = take 4 buf; port = port_of (drop 4 buf) })

target_v6 : List ℕ → TargetAddr
unfolding port_of
target_v6 buf =
    ip_v6 (record { ip = take 16 buf; port = port_of (drop 16 buf); flowinfo = 0; scope_id = 0 })

pub target_domain : Option Str → List ℕ → Handler TargetAddr
unfolding port_of
target_domain none port = fail (message (chars "invalid utf-8 sequence"))
target_domain (some d) port = pure (domain d (port_of port))

read_domain : List ℕ → Handler TargetAddr
unfolding target_domain
read_domain (domain_len ∷ []) =
    if domain_len == 0 || ltb 255 domain_len
    then fail (message (chars "Invalid domain length"))
    else do
      buf ← recv_into buf_len (domain_len + 2)
      target_domain (from_utf8 (take domain_len buf)) (drop domain_len buf)
read_domain _ = crash

-- The match on the address type.
pub read_target : ℕ → Handler TargetAddr
unfolding target_v4 target_v6 read_domain
read_target atyp =
    if atyp == 0x01
    then (do buf ← recv_into buf_len 6; pure (target_v4 buf))
    else if atyp == 0x03
    then (do buf ← recv_into buf_len 1; read_domain buf)
    else if atyp == 0x04
    then (do buf ← recv_into buf_len 18; pure (target_v6 buf))
    else fail (message (chars "Unsupported SOCKS5 address type"))

-- The request: version, command, reserved byte and address type.
request : List ℕ → Handler TargetAddr
unfolding read_target
request (version ∷ cmd ∷ _rsv ∷ atyp ∷ []) =
    if version == 0x05
    then (if cmd == 0x01 then read_target atyp else do
      send (socks5_reply 0x07 (domain (chars "0.0.0.0") 0))
      fail (message (chars "Unsupported SOCKS5 command")))
    else fail (message (chars "Invalid SOCKS5 version in request"))
request _ = crash

abbrev pub unspecified : TargetAddr
unspecified = ip_v4 (record { ip = 0 ∷ 0 ∷ 0 ∷ 0 ∷ []; port = 0 })

unfoldable pub handle_socks5_client : Handler TargetAddr
unfolding greet request
handle_socks5_client = do
  hello ← recv_into buf_len 2
  greet hello
  req ← recv_into buf_len 4
  target ← request req
  send (socks5_reply 0x00 unspecified)
  pure target
