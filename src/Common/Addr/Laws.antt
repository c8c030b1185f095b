-- ===== src/Common/Addr/Laws.antt =====
-- How the encoding and the decoding of addresses fit together.
use reliz_protocol.Base.{
  ℕ, ◌+◌, ◌<◌, ◌≡◌, refl, List, [], ◌∷◌, ◌++◌, length, ltb, ◌==◌, arith, false,
}
use reliz_protocol.Base.{ok, length-append, append_assoc, le→ltb, suc-not_short, sym}
use reliz_protocol.Base.Bytes.{be16, get_u8, copy_to_bytes, copy_to_bytes-append, get_u16-be16}
use reliz_protocol.Base.Utf8.{Str, utf8}
use reliz_protocol.Base.Utf8.Laws.{from_utf8-utf8}
use reliz_protocol.Common.Types.{
  ProtocolError, SocketAddrV4, SocketAddrV6, TargetAddr, no_addr, ip_v4, ip_v6, domain, IsV4, IsV6,
  IsDomain, IsTarget,
}
use reliz_protocol.Common.Addr.{
  encode, decode, decode_ipv4, decode_ipv6, decode_domain, decode_name, encoded_len,
}

-- For an address with an encoding of its own, `encode` puts as many bytes as `encoded_len` says.
pub length-encode :
    (t : TargetAddr) (bs : List ℕ) → IsTarget t → encode t ≡ ok bs → length bs ≡ encoded_len t
unfolding encode encoded_len
length-encode no_addr bs h e = ground arith
length-encode (ip_v4 a) bs h e = ground (arith, length-append a.ip (be16 a.port), h.ip_len)
length-encode (ip_v6 a) bs h e = ground (arith, length-append a.ip (be16 a.port), h.ip_len)
length-encode (domain d p) bs h e = ground (arith, length-append (utf8 d) (be16 p))

-- The bytes of an address.
abbrev pub encoding : TargetAddr → List ℕ
encoding no_addr = 0 ∷ []
encoding (ip_v4 a) = 1 ∷ (a.ip ++ be16 a.port)
encoding (ip_v6 a) = 4 ∷ (a.ip ++ be16 a.port)
encoding (domain d p) = 3 ∷ length (utf8 d) ∷ (utf8 d ++ be16 p)

pub encode-encoding : (t : TargetAddr) → IsTarget t → encode t ≡ ok (encoding t)
unfolding encode
encode-encoding no_addr h = refl
encode-encoding (ip_v4 a) h = refl
encode-encoding (ip_v6 a) h = refl
encode-encoding (domain d p) h = ground (arith, h.short)

-- An address and port that stand in a buffer pass the length test and are read back.
module _ (n : ℕ) (xs : List ℕ) (p : ℕ) (rest : List ℕ) (len : length xs ≡ n) where
  fits : ltb (length (xs ++ (be16 p ++ rest))) (n + 2) ≡ false
  fits = le→ltb _ (n + 2) (rw length-append (omega arith))

  read_body : copy_to_bytes {E = ProtocolError} n (xs ++ (be16 p ++ rest)) ≡ ok (xs, be16 p ++ rest)
  read_body = copy_to_bytes-append n xs (be16 p ++ rest) len

not_zero : (n : ℕ) → 0 < n → (n == 0) ≡ false
not_zero n h = ground arith

decode_ipv4_lem :
    (a : SocketAddrV4) (rest : List ℕ)
    → IsV4 a
    → decode_ipv4 (a.ip ++ (be16 a.port ++ rest)) ≡ ok (ip_v4 a, rest)
decode_ipv4_lem a rest h =
    unfold decode_ipv4 in
    rw (
      fits 4 a.ip a.port rest h.ip_len,
      read_body 4 a.ip a.port rest h.ip_len,
      get_u16-be16 a.port rest,
    )

decode_ipv6_lem :
    (a : SocketAddrV6) (rest : List ℕ)
    → IsV6 a
    → decode_ipv6 (a.ip ++ (be16 a.port ++ rest)) ≡ ok (ip_v6 a, rest)
decode_ipv6_lem a rest h =
    unfold decode_ipv6 in
    rw
      (
        fits 16 a.ip a.port rest h.ip_len,
        read_body 16 a.ip a.port rest h.ip_len,
        get_u16-be16 a.port rest,
      )
      (λ i.
        ok (
          ip_v6 (record a { flowinfo = sym h.plain_flow i; scope_id = sym h.plain_scope i }),
          rest,
        ))

decode_name_lem :
    (d : Str) (p : ℕ) (rest : List ℕ)
    → IsDomain d p
    → decode_name (length (utf8 d)) (utf8 d ++ (be16 p ++ rest)) ≡ ok (domain d p, rest)
decode_name_lem d p rest h =
    unfold decode_name in
    rw (
      not_zero _ h.not_empty,
      fits (length (utf8 d)) (utf8 d) p rest refl,
      read_body (length (utf8 d)) (utf8 d) p rest refl,
      from_utf8-utf8 d h.text,
      get_u16-be16 p rest,
    )

decode_domain_lem :
    (d : Str) (p : ℕ) (rest : List ℕ)
    → IsDomain d p
    → decode_domain (length (utf8 d) ∷ (utf8 d ++ (be16 p ++ rest))) ≡ ok (domain d p, rest)
decode_domain_lem d p rest h =
    unfold decode_domain get_u8 in rw (suc-not_short) (decode_name_lem d p rest h)

pub decode-encoding :
    (t : TargetAddr) (rest : List ℕ) → IsTarget t → decode (encoding t ++ rest) ≡ ok (t, rest)
decode-encoding no_addr rest h = unfold decode get_u8 in rw suc-not_short
decode-encoding (ip_v4 a) rest h =
    rw append_assoc (unfold decode get_u8 in rw suc-not_short (decode_ipv4_lem a rest h))
decode-encoding (ip_v6 a) rest h =
    rw append_assoc (unfold decode get_u8 in rw suc-not_short (decode_ipv6_lem a rest h))
decode-encoding (domain d p) rest h =
    rw append_assoc (unfold decode get_u8 in rw suc-not_short (decode_domain_lem d p rest h))

-- An address with an encoding of its own is encoded, and the decoding of those bytes, whatever
-- follows them, is the address with what follows.
pub decode-encode :
    (t : TargetAddr)
    → IsTarget t
    → (bs : List ℕ) × (encode t ≡ ok bs) × ((rest : List ℕ) → decode (bs ++ rest) ≡ ok (t, rest))
decode-encode t h = (encoding t, encode-encoding t h, λ rest. decode-encoding t rest h)
