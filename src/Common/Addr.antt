-- ===== src/Common/Addr.antt =====
-- `TargetAddr`: its port, its encoding and its decoding (ghost-common/src/lib.rs).
pub mod Laws
pub mod Canonical
pub mod Total
use reliz_protocol.Base.{
  ℕ, ◌+◌, List, [], ◌∷◌, ◌++◌, Option, none, some, length, ltb, ◌==◌, if◌then◌else◌,
}
use reliz_protocol.Base.{Outcome, ok, err, ◌>>=◌}
use reliz_protocol.Base.Bytes.{as_u8, be16, get_u8, get_u16, copy_to_bytes}
use reliz_protocol.Base.Utf8.{Str, utf8, from_utf8}
use reliz_protocol.Common.Types.{
  ProtocolError, buffer_underflow, invalid_domain_length, invalid_addr_type, SocketAddr, v4, v6,
  TargetAddr, no_addr, ip_v4, ip_v6, domain, addr_type_none, addr_type_ipv4, addr_type_ipv6,
  addr_type_domain,
}

unfoldable pub port : TargetAddr → ℕ
port no_addr = 0
port (ip_v4 a) = a.port
port (ip_v6 a) = a.port
port (domain _ p) = p

-- The bytes that `encode` puts behind those already in the buffer.
unfoldable pub encode : TargetAddr → Outcome ProtocolError (List ℕ)
encode no_addr = ok (addr_type_none ∷ [])
encode (ip_v4 a) = ok (addr_type_ipv4 ∷ (a.ip ++ be16 a.port))
encode (ip_v6 a) = ok (addr_type_ipv6 ∷ (a.ip ++ be16 a.port))
encode (domain d p) =
    let bytes = utf8 d in
    if ltb 255 (length bytes)
    then err (invalid_domain_length (length bytes))
    else ok (addr_type_domain ∷ as_u8 (length bytes) ∷ (bytes ++ be16 p))

decode_ipv4 : List ℕ → Outcome ProtocolError (TargetAddr × List ℕ)
decode_ipv4 buf = if ltb (length buf) (4 + 2) then err (buffer_underflow 6 (length buf)) else do
  (octets, buf1) ← copy_to_bytes 4 buf
  (p, buf2) ← get_u16 buf1
  ok (ip_v4 (record { ip = octets; port = p }), buf2)

decode_ipv6 : List ℕ → Outcome ProtocolError (TargetAddr × List ℕ)
decode_ipv6 buf = if ltb (length buf) (16 + 2) then err (buffer_underflow 18 (length buf)) else do
  (octets, buf1) ← copy_to_bytes 16 buf
  (p, buf2) ← get_u16 buf1
  ok (ip_v6 (record { ip = octets; port = p; flowinfo = 0; scope_id = 0 }), buf2)

-- `String::from_utf8(…).map_err(…)?`
text_of : ℕ → Option Str → Outcome ProtocolError Str
text_of n none = err (invalid_domain_length n)
text_of n (some d) = ok d

decode_name : ℕ → List ℕ → Outcome ProtocolError (TargetAddr × List ℕ)
unfolding text_of
decode_name domain_len buf =
    if domain_len == 0
    then err (invalid_domain_length 0)
    else if ltb (length buf) (domain_len + 2)
    then err (buffer_underflow (domain_len + 2) (length buf))
    else do
      (bytes, buf1) ← copy_to_bytes domain_len buf
      d ← text_of domain_len (from_utf8 bytes)
      (p, buf2) ← get_u16 buf1
      ok (domain d p, buf2)

decode_domain : List ℕ → Outcome ProtocolError (TargetAddr × List ℕ)
unfolding decode_name
decode_domain buf =
    if ltb (length buf) 1
    then err (buffer_underflow 1 0)
    else do (domain_len, buf1) ← get_u8 buf; decode_name domain_len buf1

-- The match on the type byte.
decode_as : ℕ → List ℕ → Outcome ProtocolError (TargetAddr × List ℕ)
unfolding decode_ipv4 decode_ipv6 decode_domain
decode_as addr_type buf =
    if addr_type == addr_type_none
    then ok (no_addr, buf)
    else if addr_type == addr_type_ipv4
    then decode_ipv4 buf
    else if addr_type == addr_type_ipv6
    then decode_ipv6 buf
    else if addr_type == addr_type_domain
    then decode_domain buf
    else err (invalid_addr_type addr_type)

-- The address, and what is left of the buffer.
unfoldable pub decode : List ℕ → Outcome ProtocolError (TargetAddr × List ℕ)
unfolding decode_as
decode buf =
    if ltb (length buf) 1
    then err (buffer_underflow 1 0)
    else do (addr_type, buf1) ← get_u8 buf; decode_as addr_type buf1

unfoldable pub encoded_len : TargetAddr → ℕ
encoded_len no_addr = 1
encoded_len (ip_v4 _) = 1 + 4 + 2
encoded_len (ip_v6 _) = 1 + 16 + 2
encoded_len (domain d _) = 1 + 1 + length (utf8 d) + 2

-- `From<SocketAddr>`
unfoldable pub from_socket_addr : SocketAddr → TargetAddr
from_socket_addr (v4 a) = ip_v4 a
from_socket_addr (v6 a) = ip_v6 a
