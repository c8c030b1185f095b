-- ===== src/Common/Addr/Total.antt =====
-- The decoding of an address on any bytes: it never panics, and it only takes bytes off the front.
use reliz_protocol.Base.{ℕ, ◌+◌, ◌≤◌, ◌≢◌, List, [], ◌∷◌, length, drop, length-drop, arith}
use reliz_protocol.Base.{panic}
use reliz_protocol.Base.Bytes.{get_u8, get_u16, get_u16-ne-panic, copy_to_bytes_lem}
use reliz_protocol.Common.Types.{ProtocolError}
use reliz_protocol.Common.Addr.{
  decode, decode_as, decode_ipv4, decode_ipv6, decode_domain, decode_name,
}

-- Behind a length test, `n` bytes and a port can be read.
port-ne-panic :
    (n : ℕ) (buf : List ℕ) → n + 2 ≤ length buf → get_u16 {E = ProtocolError} (drop n buf) ≢ panic
port-ne-panic n buf h = get_u16-ne-panic (drop n buf) (omega (arith, length-drop n buf))

decode_ipv4-ne-panic : (buf : List ℕ) → decode_ipv4 buf ≢ panic
unfolding decode_ipv4
decode_ipv4-ne-panic buf =
    ground (arith, copy_to_bytes_lem {E = ProtocolError} 4 buf, port-ne-panic 4 buf)

decode_ipv6-ne-panic : (buf : List ℕ) → decode_ipv6 buf ≢ panic
unfolding decode_ipv6
decode_ipv6-ne-panic buf =
    ground (arith, copy_to_bytes_lem {E = ProtocolError} 16 buf, port-ne-panic 16 buf)

decode_name-ne-panic : (n : ℕ) (buf : List ℕ) → decode_name n buf ≢ panic
unfolding decode_name
decode_name-ne-panic n buf =
    ground (arith, copy_to_bytes_lem {E = ProtocolError} n buf, port-ne-panic n buf)

decode_domain-ne-panic : (buf : List ℕ) → decode_domain buf ≢ panic
unfolding decode_domain get_u8
decode_domain-ne-panic [] = ground arith
decode_domain-ne-panic (n ∷ buf) = ground (arith, decode_name-ne-panic n buf)

decode_as-ne-panic : (t : ℕ) (buf : List ℕ) → decode_as t buf ≢ panic
unfolding decode_as
decode_as-ne-panic t buf =
    ground (arith, decode_ipv4-ne-panic buf, decode_ipv6-ne-panic buf, decode_domain-ne-panic buf)

-- Whatever the bytes, `decode` returns an address or an error: no read runs past the buffer.
pub decode-ne-panic : (buf : List ℕ) → decode buf ≢ panic
unfolding decode get_u8
decode-ne-panic [] = ground arith
decode-ne-panic (t ∷ buf) = ground (arith, decode_as-ne-panic t buf)
