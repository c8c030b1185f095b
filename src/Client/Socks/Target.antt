-- ===== src/Client/Socks/Target.antt =====
-- How `handle_socks5_client` reads a greeting and a target.
use reliz_protocol.Base.{
  ℕ, ◌+◌, ◌-◌, ◌<◌, ◌≤◌, ◌≡◌, refl, sym, ◌∙◌, List, [], ◌∷◌, ◌++◌, length, length-append, take,
  drop, take-append, drop-append, arith, true, false, lt→ltb, le→ltb, ◌==◌, ok,
}
use reliz_protocol.Base.Bytes.{be16}
use reliz_protocol.Base.Io.{Ending}
use reliz_protocol.Base.Utf8.{Str, chars, utf8, from_utf8}
use reliz_protocol.Base.Utf8.Laws.{from_utf8-utf8}
use reliz_protocol.Common.Types.{
  TargetAddr, no_addr, ip_v4, ip_v6, domain, SocketAddrV4, SocketAddrV6, IsTarget, IsV4, IsV6,
  IsDomain,
}
use reliz_protocol.Conn.{◌>>=◌, recv_into}
use reliz_protocol.Conn.Laws.{at, recv_into_lem, send_lem}
use reliz_protocol.Client.Socks.{
  greet, read_methods, any_no_auth, read_target, target_domain, port_of, socks5_reply, unspecified,
  buf_len,
}

-- A target that a request can name without filling the buffer: a domain of at most 254 bytes.
abbrev pub FitsBuffer : TargetAddr → Type 0
FitsBuffer no_addr = ⊥
FitsBuffer (ip_v4 a) = Unit {0}
FitsBuffer (ip_v6 a) = Unit {0}
FitsBuffer (domain d p) = length (utf8 d) ≤ 254

port_of-be16 : (p : ℕ) → port_of (be16 p) ≡ p
port_of-be16 p = unfold port_of in omega arith

module _ (e : Ending) (out : List ℕ) (room : ℕ) where
  pub read_methods_lem :
      (methods rest : List ℕ)
      → length methods ≤ 255
      → read_methods (length methods) (at (methods ++ rest) e out room)
        ≡ (ok methods, at rest e out room)
  read_methods_lem [] rest few = unfold read_methods in refl
  read_methods_lem (m ∷ ms) rest few =
      unfold read_methods in
      rw (lt→ltb 0 (length (m ∷ ms)) (omega arith))
        (recv_into_lem e out room buf_len (length (m ∷ ms)) (m ∷ ms) rest (omega arith) refl)

  pub greet_lem :
      (methods rest : List ℕ)
      → any_no_auth methods ≡ true
      → length methods ≤ 255
      → 2 ≤ room
      → greet (0x05 ∷ length methods ∷ []) (at (methods ++ rest) e out room)
        ≡ (ok tt, at rest e (out ++ 0x05 ∷ 0x00 ∷ []) (room - 2))
  greet_lem methods rest any few space =
      unfold greet in
      rw (read_methods_lem methods rest few, any)
        (send_lem e out room (0x05 ∷ 0x00 ∷ []) rest space)

  read_v4 :
      (a : SocketAddrV4) (rest : List ℕ)
      → IsV4 a
      → read_target 0x01 (at ((a.ip ++ be16 a.port) ++ rest) e out room)
        ≡ (ok (ip_v4 a), at rest e out room)
  read_v4 a rest h =
      unfold read_target in
      rw (
        recv_into_lem e out room buf_len 6 (a.ip ++ be16 a.port) rest (omega arith)
            (omega (arith, h.ip_len, length-append a.ip (be16 a.port))),
        take-append 4 a.ip (be16 a.port) h.ip_len,
        drop-append 4 a.ip (be16 a.port) h.ip_len,
        port_of-be16 a.port,
      )

  read_v6 :
      (a : SocketAddrV6) (rest : List ℕ)
      → IsV6 a
      → read_target 0x04 (at ((a.ip ++ be16 a.port) ++ rest) e out room)
        ≡ (ok (ip_v6 a), at rest e out room)
  read_v6 a rest h =
      unfold read_target in
      rw
        (
          recv_into_lem e out room buf_len 18 (a.ip ++ be16 a.port) rest (omega arith)
              (omega (arith, h.ip_len, length-append a.ip (be16 a.port))),
          take-append 16 a.ip (be16 a.port) h.ip_len,
          drop-append 16 a.ip (be16 a.port) h.ip_len,
          port_of-be16 a.port,
        )
        (λ i. (
          ok (ip_v6 (record a { flowinfo = sym h.plain_flow i; scope_id = sym h.plain_scope i })),
          at rest e out room,
        ))

  -- Reading a domain starts with its length, which must be neither 0 nor above 255.
  pub domain_start :
      (n : ℕ) (buf : List ℕ)
      → 0 < n
      → n ≤ 255
      → read_target 0x03 (at (n ∷ buf) e out room)
        ≡ (recv_into buf_len (n + 2) >>= λ b. target_domain (from_utf8 (take n b)) (drop n b))
            (at buf e out room)
  domain_start n buf pos small =
      unfold read_target in
      rw (
        recv_into_lem e out room buf_len 1 (n ∷ []) buf (omega arith) refl,
        not_zero n pos,
        le→ltb 255 n small,
      )
    where
      not_zero : (n : ℕ) → 0 < n → (n == 0) ≡ false
      not_zero n h = ground arith

  read_name :
      (d : Str) (p : ℕ) (rest : List ℕ)
      → IsDomain d p
      → length (utf8 d) ≤ 254
      → read_target 0x03 (at (length (utf8 d) ∷ ((utf8 d ++ be16 p) ++ rest)) e out room)
        ≡ (ok (domain d p), at rest e out room)
  read_name d p rest h short =
      domain_start (length (utf8 d)) ((utf8 d ++ be16 p) ++ rest) h.not_empty h.short
      ∙ rw
          (
            recv_into_lem e out room buf_len (length (utf8 d) + 2) (utf8 d ++ be16 p) rest
                (omega arith) (omega (arith, length-append (utf8 d) (be16 p))),
            take-append (length (utf8 d)) (utf8 d) (be16 p) refl,
            drop-append (length (utf8 d)) (utf8 d) (be16 p) refl,
            from_utf8-utf8 d h.text,
          )
          (unfold target_domain in rw (port_of-be16 p))

-- The address type and the address of a target, as in the protocol's own encoding.
abbrev pub atyp : TargetAddr → ℕ
atyp no_addr = 0
atyp (ip_v4 a) = 0x01
atyp (ip_v6 a) = 0x04
atyp (domain d p) = 0x03

abbrev pub address : TargetAddr → List ℕ
address no_addr = []
address (ip_v4 a) = a.ip ++ be16 a.port
address (ip_v6 a) = a.ip ++ be16 a.port
address (domain d p) = length (utf8 d) ∷ (utf8 d ++ be16 p)

-- Success, bound to 0.0.0.0:0.
abbrev pub success_reply : List ℕ
success_reply = 0x05 ∷ 0x00 ∷ 0x00 ∷ 0x01 ∷ 0 ∷ 0 ∷ 0 ∷ 0 ∷ 0 ∷ 0 ∷ []

pub reply_lem : socks5_reply 0x00 unspecified ≡ success_reply
reply_lem = unfold socks5_reply in refl

-- Command not supported, bound to the domain 0.0.0.0 and port 0.
abbrev pub unsupported_reply : List ℕ
unsupported_reply = 0x05 ∷ 0x07 ∷ 0x00 ∷ 0x03 ∷ 7 ∷ (chars "0.0.0.0" ++ 0 ∷ 0 ∷ [])

pub unsupported_lem : socks5_reply 0x07 (domain (chars "0.0.0.0") 0) ≡ unsupported_reply
unsupported_lem = unfold socks5_reply utf8 in refl

-- The bytes of a greeting and a CONNECT request.
abbrev pub dialogue : List ℕ → ℕ → TargetAddr → List ℕ → List ℕ
dialogue methods rsv t rest =
    0x05 ∷ length methods ∷ (methods ++ (0x05 ∷ 0x01 ∷ rsv ∷ atyp t ∷ (address t ++ rest)))

module _ (e : Ending) (out : List ℕ) (room : ℕ) where
  pub read_target_lem :
      (t : TargetAddr) (rest : List ℕ)
      → IsTarget t
      → FitsBuffer t
      → read_target (atyp t) (at (address t ++ rest) e out room) ≡ (ok t, at rest e out room)
  read_target_lem no_addr rest h fits = absurd fits
  read_target_lem (ip_v4 a) rest h fits = read_v4 e out room a rest h
  read_target_lem (ip_v6 a) rest h fits = read_v6 e out room a rest h
  read_target_lem (domain d p) rest h fits = read_name e out room d p rest h fits
