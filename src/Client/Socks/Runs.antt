-- ===== src/Client/Socks/Runs.antt =====
-- What the SOCKS5 inbound answers, and which target it passes on.
use reliz_protocol.Base.{
  ℕ, ◌-◌, ◌≤◌, ◌≡◌, ◌≢◌, refl, ap, ◌∙◌, List, [], ◌∷◌, ◌++◌, length, arith, true, false, ◌==◌, ok,
  err, panic,
}
use reliz_protocol.Base.Io.{Ending}
use reliz_protocol.Base.Utf8.{chars}
use reliz_protocol.Common.Types.{TargetAddr, IsTarget}
use reliz_protocol.Conn.{message, ◌>>=◌, recv_into, send}
use reliz_protocol.Conn.Laws.{at, recv_into_lem, send_lem}
use reliz_protocol.Client.Socks.{
  handle_socks5_client, any_no_auth, read_target, socks5_reply, unspecified, buf_len,
}
use reliz_protocol.Client.Socks.Target.{
  FitsBuffer, address, atyp, dialogue, domain_start, greet_lem, read_methods_lem, read_target_lem,
  reply_lem, success_reply, unsupported_lem, unsupported_reply,
}

module _ (e : Ending) (out : List ℕ) (room : ℕ) where
  -- The handler up to the address: the method is answered and the request's header is read.
  up_to_target :
      (methods : List ℕ) (rsv ty : ℕ) (buf : List ℕ)
      → any_no_auth methods ≡ true
      → length methods ≤ 255
      → 2 ≤ room
      → handle_socks5_client
          (at (0x05 ∷ length methods ∷ (methods ++ (0x05 ∷ 0x01 ∷ rsv ∷ ty ∷ buf))) e out room)
        ≡ (read_target ty >>= λ t. send (socks5_reply 0x00 unspecified) >>= λ _. λ c. (ok t, c))
            (at buf e (out ++ 0x05 ∷ 0x00 ∷ []) (room - 2))
  up_to_target methods rsv ty buf any few space =
      unfold handle_socks5_client in
      rw (
        recv_into_lem e out room buf_len 2 (0x05 ∷ length methods ∷ [])
            (methods ++ (0x05 ∷ 0x01 ∷ rsv ∷ ty ∷ buf)) (omega arith) refl,
        greet_lem e out room methods (0x05 ∷ 0x01 ∷ rsv ∷ ty ∷ buf) any few space,
        recv_into_lem e (out ++ 0x05 ∷ 0x00 ∷ []) (room - 2) buf_len 4 (0x05 ∷ 0x01 ∷ rsv ∷ ty ∷ [])
            buf (omega arith) refl,
      )

  -- A greeting that offers NO AUTH among at most 255 methods, followed by a CONNECT request for a
  -- target that has an encoding and that the buffer holds, is answered with method 0 and a
  -- success reply, if the connection takes them, and that target is passed on; the bytes that
  -- follow the request are left for the tunnel.
  pub handle_socks5-accepts :
      (methods : List ℕ) (rsv : ℕ) (t : TargetAddr) (rest : List ℕ)
      → any_no_auth methods ≡ true
      → length methods ≤ 255
      → IsTarget t
      → FitsBuffer t
      → 12 ≤ room
      → handle_socks5_client (at (dialogue methods rsv t rest) e out room)
        ≡ (ok t, at rest e ((out ++ 0x05 ∷ 0x00 ∷ []) ++ success_reply) (room - 2 - 10))
  handle_socks5-accepts methods rsv t rest any few valid fits space =
      up_to_target methods rsv (atyp t) (address t ++ rest) any few (omega arith)
      ∙ rw (
        read_target_lem e (out ++ 0x05 ∷ 0x00 ∷ []) (room - 2) t rest valid fits,
        reply_lem,
        send_lem e (out ++ 0x05 ∷ 0x00 ∷ []) (room - 2) success_reply rest (omega arith),
      )

  -- Behind a greeting that is accepted and answered, a request for a domain of 255 bytes makes
  -- the handler panic, whatever the domain and whatever follows it: the slice of the domain and
  -- its port is one byte longer than the buffer.
  pub handle_socks5_domain_panics :
      (methods : List ℕ) (rsv : ℕ) (rest : List ℕ)
      → any_no_auth methods ≡ true
      → length methods ≤ 255
      → 2 ≤ room
      → (handle_socks5_client (
          at
            (0x05 ∷ length methods ∷ (methods ++ (0x05 ∷ 0x01 ∷ rsv ∷ 0x03 ∷ 255 ∷ rest)))
            e
            out
            room)).0
        ≡ panic
  handle_socks5_domain_panics methods rsv rest any few space =
      ap (λ r. r.0) (up_to_target methods rsv 0x03 (255 ∷ rest) any few space)
      ∙ rw
          (domain_start e (out ++ 0x05 ∷ 0x00 ∷ []) (room - 2) 255 rest (omega arith) (omega arith))
          (unfold recv_into in refl)

module _ (e : Ending) (out : List ℕ) (room : ℕ) where
  -- A greeting whose first byte is not 5 is refused, and nothing is written.
  pub handle_socks5-refuses_version :
      (version nmethods : ℕ) (buf : List ℕ)
      → version ≢ 0x05
      → handle_socks5_client (at (version ∷ nmethods ∷ buf) e out room)
        ≡ (err (message (chars "Not a SOCKS5 connection")), at buf e out room)
  handle_socks5-refuses_version version nmethods buf other =
      unfold handle_socks5_client in
      rw (
        recv_into_lem e out room buf_len 2 (version ∷ nmethods ∷ []) buf (omega arith) refl,
        other_version,
      )
    where
      other_version : (version == 0x05) ≡ false
      other_version = ground arith

  -- A greeting of at most 255 methods that does not offer NO AUTH is answered with `05 FF`, if
  -- the connection takes it, and refused.
  pub handle_socks5-refuses_methods :
      (methods buf : List ℕ)
      → any_no_auth methods ≡ false
      → length methods ≤ 255
      → 2 ≤ room
      → handle_socks5_client (at (0x05 ∷ length methods ∷ (methods ++ buf)) e out room) ≡ (
        err (message (chars "Client doesn't support NO AUTH method")),
        at buf e (out ++ 0x05 ∷ 0xff ∷ []) (room - 2),
      )
  handle_socks5-refuses_methods methods buf none_fits few space =
      unfold handle_socks5_client in
      rw (
        recv_into_lem e out room buf_len 2 (0x05 ∷ length methods ∷ []) (methods ++ buf)
            (omega arith) refl,
        read_methods_lem e out room methods buf few,
        none_fits,
        send_lem e out room (0x05 ∷ 0xff ∷ []) buf space,
      )

  -- Behind a greeting that is accepted, a command other than CONNECT is answered with reply code
  -- 7, if the connection takes it, and refused.
  pub handle_socks5-refuses_command :
      (cmd rsv ty : ℕ) (methods buf : List ℕ)
      → any_no_auth methods ≡ true
      → length methods ≤ 255
      → cmd ≢ 0x01
      → 16 ≤ room
      → handle_socks5_client
          (at (0x05 ∷ length methods ∷ (methods ++ (0x05 ∷ cmd ∷ rsv ∷ ty ∷ buf))) e out room)
        ≡ (
          err (message (chars "Unsupported SOCKS5 command")),
          at buf e ((out ++ 0x05 ∷ 0x00 ∷ []) ++ unsupported_reply) (room - 2 - 14),
        )
  handle_socks5-refuses_command cmd rsv ty methods buf any few other space =
      unfold handle_socks5_client in
      rw (
        recv_into_lem e out room buf_len 2 (0x05 ∷ length methods ∷ [])
            (methods ++ (0x05 ∷ cmd ∷ rsv ∷ ty ∷ buf)) (omega arith) refl,
        greet_lem e out room methods (0x05 ∷ cmd ∷ rsv ∷ ty ∷ buf) any few (omega arith),
        recv_into_lem e (out ++ 0x05 ∷ 0x00 ∷ []) (room - 2) buf_len 4 (0x05 ∷ cmd ∷ rsv ∷ ty ∷ [])
            buf (omega arith) refl,
        other_command,
        unsupported_lem,
        send_lem e (out ++ 0x05 ∷ 0x00 ∷ []) (room - 2) unsupported_reply buf (omega arith),
      )
    where
      other_command : (cmd == 0x01) ≡ false
      other_command = ground arith
