-- ===== src/Tun/Socks5.antt =====
-- ghost-tun/src/socks5.rs, from the connected stream on. The handler's connection is the stream
-- that `socks5_connect` returns.
pub mod Dialogue
use reliz_protocol.Base.{
  ℕ, ◌+◌, ◌*◌, List, [], ◌∷◌, ◌++◌, Bool, true, false, length, take, drop, ◌==◌, if◌then◌else◌,
}
use reliz_protocol.Base.Bytes.{be16}
use reliz_protocol.Base.Utf8.{chars}
use reliz_protocol.Common.Types.{SocketAddr, SocketAddrV4, SocketAddrV6, v4, v6}
use reliz_protocol.Conn.{Handler, message, pure, fail, crash, ◌>>=◌, ◌>>◌, recv, send}

unfoldable pub encode_addr : SocketAddr → List ℕ
encode_addr (v4 a) = 0x01 ∷ (a.ip ++ be16 a.port)
encode_addr (v6 a) = 0x04 ∷ (a.ip ++ be16 a.port)

skip_domain : List ℕ → Handler (Unit {0})
skip_domain (len ∷ []) = do _ ← recv (len + 2); pure tt
skip_domain _ = crash

skip_as : List ℕ → Handler (Unit {0})
unfolding skip_domain
skip_as (atyp ∷ []) =
    if atyp == 0x01
    then (do _ ← recv 6; pure tt)
    else if atyp == 0x03
    then (do len ← recv 1; skip_domain len)
    else if atyp == 0x04
    then (do _ ← recv 18; pure tt)
    else fail (message (chars "Unknown SOCKS5 ATYP"))
skip_as _ = crash

unfoldable pub skip_socks5_addr : Handler (Unit {0})
unfolding skip_as
skip_socks5_addr = do atyp ← recv 1; skip_as atyp

check_method : List ℕ → Handler (Unit {0})
check_method (version ∷ method ∷ []) =
    if version == 0x05
    then (if method == 0x00
        then pure tt
        else fail (message (chars "SOCKS5 auth method not accepted")))
    else fail (message (chars "SOCKS5 version mismatch"))
check_method _ = crash

check_reply : List ℕ → Handler (Unit {0})
check_reply (version ∷ code ∷ _) =
    if version == 0x05
    then (if code == 0x00
        then pure tt
        else fail (message (chars "SOCKS5 CONNECT failed with code")))
    else fail (message (chars "SOCKS5 reply version mismatch"))
check_reply _ = crash

unfoldable pub socks5_connect : SocketAddr → Handler (Unit {0})
unfolding check_method check_reply
socks5_connect target = do
  send (0x05 ∷ 0x01 ∷ 0x00 ∷ [])
  buf ← recv 2
  check_method buf
  send (0x05 ∷ 0x01 ∷ 0x00 ∷ encode_addr target)
  resp ← recv 4
  check_reply resp
  skip_socks5_addr

port_of : List ℕ → ℕ
port_of (hi ∷ lo ∷ _) = hi * 256 + lo
port_of _ = 0

read_as : List ℕ → Handler SocketAddr
unfolding port_of
read_as (atyp ∷ []) =
    if atyp == 0x01
    then (do buf ← recv 6; pure (v4 (record { ip = take 4 buf; port = port_of (drop 4 buf) })))
    else if atyp == 0x04
    then (do
      buf ← recv 18
      pure (
          v6 (record {
            ip = take 16 buf;
            port = port_of (drop 16 buf);
            flowinfo = 0;
            scope_id = 0;
          })))
    else fail (message (chars "Unsupported SOCKS5 ATYP for UDP"))
read_as _ = crash

unfoldable pub read_socks5_addr : Handler SocketAddr
unfolding read_as
read_socks5_addr = do atyp ← recv 1; read_as atyp

-- The version bytes of the answers are not looked at here.
check_second : List ℕ → Bool
check_second (_ ∷ b ∷ _) = b == 0x00
check_second _ = false

unfoldable pub socks5_udp_associate : Handler SocketAddr
unfolding check_second
socks5_udp_associate = do
  send (0x05 ∷ 0x01 ∷ 0x00 ∷ [])
  buf ← recv 2
  if check_second buf then pure tt else fail (message (chars "SOCKS5 auth rejected"))
  send (0x05 ∷ 0x03 ∷ 0x00 ∷ 0x01 ∷ 0 ∷ 0 ∷ 0 ∷ 0 ∷ 0 ∷ 0 ∷ [])
  resp ← recv 4
  if check_second resp then pure tt else fail (message (chars "SOCKS5 UDP ASSOCIATE failed"))
  read_socks5_addr
