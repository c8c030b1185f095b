-- ===== src/Client/Socks/Heard.antt =====
-- What a client of the SOCKS5 inbound must have sent when the handler passes a target on.
pub mod Address
use reliz_protocol.Client.Socks.Heard.Address.{Names, IsRead, read_target-eq-ok}
use reliz_protocol.Base.{
  ℕ, ◌+◌, ◌*◌, ◌≤◌, ◌≡◌, refl, sym, ap, subst, ◌∙◌, List, [], ◌∷◌, ◌++◌, append_assoc, length,
  length-take, length-drop, take, drop, take-append-drop, arith, Bool, true, false, ◌||◌, Option,
  none, some, ltb, ==_iff, Bool-cases, inl, inr, ◌==◌, if◌then◌else◌, ok,
}
use mathlib.Core.Path.{subst₂, ap₂}
use reliz_protocol.Base.Io.{Sink}
use reliz_protocol.Base.Utf8.{Str, chars, from_utf8}
use reliz_protocol.Common.Types.{TargetAddr, ip_v4, ip_v6, domain}
use reliz_protocol.Conn.{Conn, Handler, message, fail, pure, ◌>>=◌, recv_into, send}
use reliz_protocol.Conn.Inverse.{by_step, IsTaken, recv_into-eq-ok, IsSent, send-eq-ok}
use reliz_protocol.Client.Socks.{
  handle_socks5_client, any_no_auth, greet, answer_methods, read_methods, request, read_target,
  read_domain, target_domain, target_v4, target_v6, port_of, socks5_reply, unspecified, buf_len,
}
use reliz_protocol.Client.Socks.Target.{success_reply, reply_lem}

request-eq-ok :
    (req : List ℕ) (t : TargetAddr) (c c' : Conn)
    → request req c ≡ (ok t, c')
    → (rsv : ℕ) × (ty : ℕ) × (req ≡ 0x05 ∷ 0x01 ∷ rsv ∷ ty ∷ [])
      × IsRead ty t c.input.bytes c.output c'
unfolding request
request-eq-ok [] t c c' e = cc e
request-eq-ok (a ∷ []) t c c' e = cc e
request-eq-ok (a ∷ b ∷ []) t c c' e = cc e
request-eq-ok (a ∷ b ∷ d ∷ []) t c c' e = cc e
request-eq-ok (version ∷ cmd ∷ rsv ∷ ty ∷ []) t c c' e = elim (Bool-cases (version == 0x05)) [
  | inl h ↦ elim (Bool-cases (cmd == 0x01)) [
    | inl k ↦ (
      rsv,
      ty,
      ap₂ (λ x y. x ∷ y ∷ rsv ∷ ty ∷ []) ((==_iff version 5).0 h) ((==_iff cmd 1).0 k),
      read_target-eq-ok ty t c c' (rw (h, k) at e),
    )
    | inr k ↦
        by_step (send (socks5_reply 0x07 (domain (chars "0.0.0.0") 0)) c) _ t c' (rw (h, k) at e)
          (λ u c1 e1 f1. cc f1)
  ]
  | inr h ↦ cc (rw h at e)
]
request-eq-ok (a ∷ b ∷ d ∷ g ∷ i ∷ r) t c c' e = cc e

-- The methods were taken and answered with the first of them that serves.
record IsGreeted (hello : List ℕ) (c c' : Conn) : Type 0 where
  methods : List ℕ
  greeting : hello ≡ 0x05 ∷ length methods ∷ []
  offered : any_no_auth methods ≡ true
  came : c.input.bytes ≡ methods ++ c'.input.bytes
  wrote : c'.output.written ≡ c.output.written ++ 0x05 ∷ 0x00 ∷ []

zero-of_ltb : (n : ℕ) → ltb 0 n ≡ false → 0 ≡ n
zero-of_ltb n h = ground arith

no_methods :
    (n : ℕ) (methods : List ℕ) (c c' : Conn)
    → 0 ≡ n
    → pure [] c ≡ (ok methods, c')
    → IsTaken n methods c c'
no_methods n methods c c' none_left e =
    let nil : [] ≡ methods = cc (ap (λ x. x.0) e) in
    let same : c ≡ c' = ap (λ x. x.1) e in
    record {
      size = ap length (sym nil) ∙ none_left;
      taken = ap (λ x. x.input.bytes) same ∙ ap (λ x. x ++ c'.input.bytes) nil;
      silent = ap (λ x. x.output) (sym same);
    }

read_methods-eq-ok :
    (n : ℕ) (methods : List ℕ) (c c' : Conn)
    → read_methods n c ≡ (ok methods, c')
    → IsTaken n methods c c'
unfolding read_methods
read_methods-eq-ok n methods c c' e = elim (Bool-cases (ltb 0 n)) [
  | inl h ↦ (recv_into-eq-ok buf_len n c methods c' (rw h at e)).1
  | inr h ↦ no_methods n methods c c' (zero-of_ltb n h) (rw h at e)
]

answer_methods-eq-ok :
    (any : Bool) (c c' : Conn)
    → answer_methods any c ≡ (ok tt, c')
    → (any ≡ true) × IsSent (0x05 ∷ 0x00 ∷ []) c c'
unfolding answer_methods
answer_methods-eq-ok false c c' e =
    by_step (send (0x05 ∷ 0xff ∷ []) c) _ tt c' e (λ u c1 e1 f1. cc f1)
answer_methods-eq-ok true c c' e = (refl, send-eq-ok (0x05 ∷ 0x00 ∷ []) c c' e)

greet-eq-ok : (hello : List ℕ) (c c' : Conn) → greet hello c ≡ (ok tt, c') → IsGreeted hello c c'
unfolding greet
greet-eq-ok [] c c' e = cc e
greet-eq-ok (a ∷ []) c c' e = cc e
greet-eq-ok (version ∷ n ∷ []) c c' e = elim (Bool-cases (version == 0x05)) [
  | inl h ↦ by_step (read_methods n c) _ tt c' (rw h at e) (λ methods c1 e1 f1.
      let taken = read_methods-eq-ok n methods c c1 e1 in
      let (any, sent) = answer_methods-eq-ok (any_no_auth methods) c1 c' f1 in
      record {
        methods = methods;
        greeting = ap₂ (λ x y. x ∷ y ∷ []) ((==_iff version 5).0 h) (sym taken.size);
        offered = any;
        came = taken.taken ∙ ap (λ x. methods ++ x.bytes) (sym sent.unread);
        wrote = sent.wrote ∙ ap (λ x. x.written ++ 0x05 ∷ 0x00 ∷ []) taken.silent;
      })
  | inr h ↦ cc (rw h at e)
]
greet-eq-ok (a ∷ b ∷ d ∷ r) c c' e = cc e

-- What was heard is a greeting that offers NO AUTH, and a CONNECT request for the target; what
-- was written is the answer to each.
pub record IsHeard (t : TargetAddr) (c c' : Conn) : Type 0 where
  pub methods : List ℕ
  pub rsv : ℕ
  pub address : List ℕ
  pub heard :
      c.input.bytes
      ≡ 0x05 ∷ length methods ∷ (methods ++ 0x05 ∷ 0x01 ∷ rsv ∷ (address ++ c'.input.bytes))
  pub offered : any_no_auth methods ≡ true
  pub names : Names address t
  pub answered : c'.output.written ≡ (c.output.written ++ 0x05 ∷ 0x00 ∷ []) ++ success_reply

moved_target :
    {t u : TargetAddr} {c c1 c2 : Conn} → pure t c1 ≡ (ok u, c2) → IsHeard t c c1 → IsHeard u c c2
moved_target {t} {u} {c} {c1} {c2} e h =
    subst (λ x. IsHeard x c c2) (cc (ap (λ x. x.0) e)) (subst (IsHeard t c) (ap (λ x. x.1) e) h)

heard_bytes :
    (methods bytes b4 : List ℕ) {ty rsv : ℕ} {hello req b b1 b2 b3 : List ℕ}
    → b ≡ hello ++ b1
    → hello ≡ 0x05 ∷ length methods ∷ []
    → b1 ≡ methods ++ b2
    → b2 ≡ req ++ b3
    → req ≡ 0x05 ∷ 0x01 ∷ rsv ∷ ty ∷ []
    → b3 ≡ bytes ++ b4
    → b ≡ 0x05 ∷ length methods ∷ (methods ++ 0x05 ∷ 0x01 ∷ rsv ∷ ((ty ∷ bytes) ++ b4))
heard_bytes methods bytes b4 {ty} {rsv} {b1 = b1} {b3 = b3} start greeting offered header req
      address =
    start
    ∙ ap (λ x. x ++ b1) greeting
    ∙ ap (λ x. 0x05 ∷ length methods ∷ x)
        (offered
          ∙ ap (λ x. methods ++ x)
              (header ∙ ap (λ x. x ++ b3) req ∙ ap (λ x. 0x05 ∷ 0x01 ∷ rsv ∷ ty ∷ x) address))

opened_dialogue :
    (hello req : List ℕ) (t : TargetAddr) (c c1 c2 c3 c4 c5 : Conn)
    → recv_into buf_len 2 c ≡ (ok hello, c1)
    → greet hello c1 ≡ (ok tt, c2)
    → recv_into buf_len 4 c2 ≡ (ok req, c3)
    → request req c3 ≡ (ok t, c4)
    → send (socks5_reply 0x00 unspecified) c4 ≡ (ok tt, c5)
    → IsHeard t c c5
opened_dialogue hello req t c c1 c2 c3 c4 c5 e1 e2 e3 e4 e5 =
    let (fits1, start) = recv_into-eq-ok buf_len 2 c hello c1 e1 in
    let greeted = greet-eq-ok hello c1 c2 e2 in
    let (fits3, header) = recv_into-eq-ok buf_len 4 c2 req c3 e3 in
    let (rsv, ty, connect, address) = request-eq-ok req t c3 c4 e4 in
    let replied = send-eq-ok (socks5_reply 0x00 unspecified) c4 c5 e5 in
    record {
      methods = greeted.methods;
      rsv = rsv;
      address = ty ∷ address.bytes;
      heard =
          heard_bytes greeted.methods address.bytes c5.input.bytes start.taken greeted.greeting
            greeted.came header.taken connect
            (address.came ∙ ap (λ x. address.bytes ++ x.bytes) (sym replied.unread));
      offered = greeted.offered;
      names = address.names;
      answered =
          replied.wrote
          ∙ ap₂ (λ x y. x ++ y)
              (ap (λ x. x.written) (address.silent ∙ header.silent)
                ∙ greeted.wrote
                ∙ ap (λ x. x.written ++ 0x05 ∷ 0x00 ∷ []) start.silent)
              reply_lem;
    }

-- No target is passed on that was not asked for. When `handle_socks5_client` succeeds with a
-- target, whatever the bytes are, they began with a greeting whose methods offer NO AUTH and a
-- CONNECT request that names that target, a domain of at most 254 bytes; the handler took these
-- bytes and no more, and wrote the method 0 and the success reply and nothing else.
pub handle_socks5-IsHeard :
    (t : TargetAddr) (c c' : Conn) → handle_socks5_client c ≡ (ok t, c') → IsHeard t c c'
unfolding handle_socks5_client
handle_socks5-IsHeard t c c' e = by_step (recv_into buf_len 2 c) _ t c' e (λ hello c1 e1 f1.
    by_step (greet hello c1) _ t c' f1 (λ u c2 e2 f2.
      by_step (recv_into buf_len 4 c2) _ t c' f2 (λ req c3 e3 f3.
        by_step (request req c3) _ t c' f3 (λ target c4 e4 f4.
          by_step (send (socks5_reply 0x00 unspecified) c4) _ t c' f4 (λ v c5 e5 f5.
            moved_target f5 (opened_dialogue hello req target c c1 c2 c3 c4 c5 e1 e2 e3 e4 e5))))))
