-- ===== src/Tun/Socks5/Dialogue.antt =====
-- The SOCKS5 client of ghost-tun against the SOCKS5 inbound of ghost-client.
use reliz_protocol.Base.{
  ℕ, ◌+◌, ◌-◌, ◌≤◌, ◌≡◌, refl, ap, ◌∙◌, List, [], ◌∷◌, ◌++◌, length, length-append, arith, ok, err,
}
use reliz_protocol.Base.Bytes.{be16}
use reliz_protocol.Base.Io.{Ending}
use reliz_protocol.Base.Utf8.{chars}
use reliz_protocol.Common.Types.{SocketAddr, v4, v6, IsTarget}
use reliz_protocol.Common.Addr.{from_socket_addr}
use reliz_protocol.Conn.{message}
use reliz_protocol.Conn.Laws.{at, recv_lem, send_lem}
use reliz_protocol.Client.Socks.{handle_socks5_client, any_no_auth}
use reliz_protocol.Client.Socks.Runs.{handle_socks5-accepts}
use reliz_protocol.Client.Socks.Target.{success_reply, dialogue, FitsBuffer}
use reliz_protocol.Tun.Socks5.{socks5_connect, encode_addr, skip_socks5_addr}

-- What the client sends before and behind the answer to its greeting.
abbrev greeting : List ℕ
greeting = 0x05 ∷ 0x01 ∷ 0x00 ∷ []

abbrev connect_request : SocketAddr → List ℕ
connect_request target = 0x05 ∷ 0x01 ∷ 0x00 ∷ encode_addr target

length-encode_addr : (a : SocketAddr) → IsTarget (from_socket_addr a) → length (encode_addr a) ≤ 19
unfolding encode_addr from_socket_addr
length-encode_addr (v4 a) h = omega (arith, h.ip_len, length-append a.ip (be16 a.port))
length-encode_addr (v6 a) h = omega (arith, h.ip_len, length-append a.ip (be16 a.port))

-- What is left of the success reply behind its first four bytes does not begin with an address type.
skip_lem :
    (rest : List ℕ) (e : Ending) (out : List ℕ) (room : ℕ)
    → skip_socks5_addr (at (0 ∷ 0 ∷ 0 ∷ 0 ∷ 0 ∷ 0 ∷ rest) e out room)
      ≡ (err (message (chars "Unknown SOCKS5 ATYP")), at (0 ∷ 0 ∷ 0 ∷ 0 ∷ 0 ∷ rest) e out room)
skip_lem rest e out room =
    unfold skip_socks5_addr in rw (recv_lem e out room 1 (0 ∷ []) (0 ∷ 0 ∷ 0 ∷ 0 ∷ 0 ∷ rest) refl)

module _ (target : SocketAddr) (valid : IsTarget (from_socket_addr target)) (rest : List ℕ)
    (e : Ending) (out : List ℕ) (room : ℕ) where
  accepts_dialogue :
      12 ≤ room
      → handle_socks5_client (at (greeting ++ (connect_request target ++ rest)) e out room) ≡ (
        ok (from_socket_addr target),
        at rest e ((out ++ 0x05 ∷ 0x00 ∷ []) ++ success_reply) (room - 2 - 10),
      )
  accepts_dialogue space =
      ap (λ t. handle_socks5_client (at t e out room)) (shape target)
      ∙ handle_socks5-accepts e out room (0x00 ∷ []) 0x00 (from_socket_addr target) rest
          (unfold any_no_auth in refl) (omega arith) valid (fits target) space
    where
      shape :
          (a : SocketAddr)
          → greeting ++ (connect_request a ++ rest)
            ≡ dialogue (0x00 ∷ []) 0x00 (from_socket_addr a) rest
      shape (v4 a) = unfold encode_addr from_socket_addr in refl
      shape (v6 a) = unfold encode_addr from_socket_addr in refl

      fits : (a : SocketAddr) → FitsBuffer (from_socket_addr a)
      fits (v4 a) = unfold from_socket_addr in tt
      fits (v6 a) = unfold from_socket_addr in tt

  -- On the answers that the inbound gives, `05 00` and the success reply, and over a connection
  -- that takes its messages, `socks5_connect` sends its greeting and its request and then fails,
  -- for every well-formed target and whatever follows: it has read the reply's address type with
  -- the first four bytes, and reads one again.
  pub socks5_connect_fails :
      22 + 3 ≤ room
      → socks5_connect target (at (0x05 ∷ 0x00 ∷ (success_reply ++ rest)) e out room) ≡ (
        err (message (chars "Unknown SOCKS5 ATYP")),
        at
            (0 ∷ 0 ∷ 0 ∷ 0 ∷ 0 ∷ rest)
            e
            ((out ++ greeting) ++ connect_request target)
            (room - 3 - length (connect_request target)),
      )
  socks5_connect_fails space =
      let small = length-encode_addr target valid in
      let sent = (out ++ greeting) ++ connect_request target in
      let left = room - 3 - length (connect_request target) in
      unfold socks5_connect in
      rw
        (
          send_lem e out room greeting (0x05 ∷ 0x00 ∷ (success_reply ++ rest)) (omega arith),
          recv_lem e (out ++ greeting) (room - 3) 2 (0x05 ∷ 0x00 ∷ []) (success_reply ++ rest) refl,
          send_lem e (out ++ greeting) (room - 3) (connect_request target) (success_reply ++ rest)
              (omega (arith, small)),
          recv_lem e sent left 4 (0x05 ∷ 0x00 ∷ 0x00 ∷ 0x01 ∷ []) (0 ∷ 0 ∷ 0 ∷ 0 ∷ 0 ∷ 0 ∷ rest)
              refl,
        )
        (skip_lem rest e sent left)

-- What `socks5_connect` sends for a well-formed target, when it gets `05 00` and the success reply,
-- is accepted by the SOCKS5 inbound of ghost-client, on a connection that takes the answers of the
-- inbound as that of `socks5_connect` takes its messages. The inbound answers `05 00` and the success
-- reply, passes exactly that target on, and has read no more than was sent.
pub socks5_connect_heard :
    (target : SocketAddr) (rest more : List ℕ) (e e' : Ending) (room room' : ℕ)
    → IsTarget (from_socket_addr target)
    → 22 + 3 ≤ room
    → 12 ≤ room'
    → let after =
        (socks5_connect target (at (0x05 ∷ 0x00 ∷ (success_reply ++ rest)) e [] room)).1 in
      handle_socks5_client (at (after.output.written ++ more) e' [] room')
      ≡ (ok (from_socket_addr target), at more e' (0x05 ∷ 0x00 ∷ success_reply) (room' - 2 - 10))
socks5_connect_heard target rest more e e' room room' valid space space' =
    ap (λ t. handle_socks5_client (at (t.1.output.written ++ more) e' [] room'))
      (socks5_connect_fails target valid rest e [] room space)
    ∙ accepts_dialogue target valid more e' [] room' space'
