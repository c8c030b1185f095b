-- ===== src/Client/Socks/Heard/Address.antt =====
-- The bytes of an address that the SOCKS5 inbound has read.
use reliz_protocol.Base.{
  ℕ, ◌+◌, ◌*◌, ◌≤◌, ◌≡◌, refl, sym, ap, subst, ◌∙◌, List, [], ◌∷◌, ◌++◌, length, length-take,
  length-drop, take, drop, take-append-drop, arith, false, ◌||◌, Option, none, some, ltb, ==_iff,
  Bool-cases, inl, inr, ◌==◌, ok,
}
use mathlib.Core.Path.{subst₂}
use reliz_protocol.Base.Io.{Sink}
use reliz_protocol.Base.Utf8.{Str, utf8, from_utf8}
use reliz_protocol.Base.Utf8.Sound.{utf8-from_utf8}
use reliz_protocol.Common.Types.{TargetAddr, ip_v4, ip_v6, domain}
use reliz_protocol.Conn.{Conn, pure, ◌>>=◌, recv_into}
use reliz_protocol.Conn.Inverse.{by_step, recv_into-eq-ok}
use reliz_protocol.Client.Socks.{
  read_target, read_domain, target_domain, target_v4, target_v6, port_of, buf_len,
}

-- The bytes of a request from its address type on, and the target that they name.
pub data Names : List ℕ → TargetAddr → Type 0 where
  names_v4 :
      (ip : List ℕ) (hi lo : ℕ)
      → length ip ≡ 4
      → Names (0x01 ∷ (ip ++ hi ∷ lo ∷ [])) (ip_v4 (record { ip = ip; port = hi * 256 + lo }))
  names_v6 :
      (ip : List ℕ) (hi lo : ℕ)
      → length ip ≡ 16
      → Names
          (0x04 ∷ (ip ++ hi ∷ lo ∷ []))
          (ip_v6 (record { ip = ip; port = hi * 256 + lo; flowinfo = 0; scope_id = 0 }))
  names_domain :
      (d : Str) (hi lo : ℕ)
      → 1 ≤ length (utf8 d)
      → length (utf8 d) ≤ 254
      → Names (0x03 ∷ length (utf8 d) ∷ (utf8 d ++ hi ∷ lo ∷ [])) (domain d (hi * 256 + lo))

-- What was read is an address, from behind its type byte, and nothing was written.
pub record IsRead (ty : ℕ) (t : TargetAddr) (input : List ℕ) (out : Sink) (c' : Conn) : Type 0 where
  pub bytes : List ℕ
  pub names : Names (ty ∷ bytes) t
  pub came : input ≡ bytes ++ c'.input.bytes
  pub silent : c'.output ≡ out

two : (xs : List ℕ) → length xs ≡ 2 → (hi : ℕ) × (lo : ℕ) × (xs ≡ hi ∷ lo ∷ [])
two [] h = absurd (omega arith)
two (a ∷ []) h = absurd (omega arith)
two (a ∷ b ∷ []) h = (a, b, refl)
two (a ∷ b ∷ d ∷ xs) h = absurd (omega arith)

-- A buffer that holds an address of `n` bytes and a port.
split_port :
    (n : ℕ) (buf : List ℕ)
    → length buf ≡ n + 2
    → (hi : ℕ) × (lo : ℕ) × (length (take n buf) ≡ n)
      × (drop n buf ≡ hi ∷ lo ∷ [])
      × (take n buf ++ (hi ∷ lo ∷ []) ≡ buf)
split_port n buf h =
    let (hi, lo, port) = two (drop n buf) (omega (arith, length-drop n buf)) in
    (
      hi,
      lo,
      omega (arith, length-take n buf),
      port,
      ap (λ t. take n buf ++ t) (sym port) ∙ take-append-drop n buf,
    )

target_v4-Names : (buf : List ℕ) → length buf ≡ 6 → Names (0x01 ∷ buf) (target_v4 buf)
unfolding target_v4 port_of
target_v4-Names buf h =
    let (hi, lo, len, port, whole) = split_port 4 buf h in
    rw port (
      subst (λ t. Names (0x01 ∷ t) (ip_v4 (record { ip = take 4 buf; port = hi * 256 + lo }))) whole
        (names_v4 (take 4 buf) hi lo len))

target_v6-Names : (buf : List ℕ) → length buf ≡ 18 → Names (0x04 ∷ buf) (target_v6 buf)
unfolding target_v6 port_of
target_v6-Names buf h =
    let (hi, lo, len, port, whole) = split_port 16 buf h in
    rw port (
      subst
        (λ t.
          Names (0x04 ∷ t)
            (ip_v6 (record { ip = take 16 buf; port = hi * 256 + lo; flowinfo = 0; scope_id = 0 })))
        whole (names_v6 (take 16 buf) hi lo len))

moved :
    (ty : ℕ) {t u : TargetAddr} {input : List ℕ} {out : Sink} {c1 c2 : Conn}
    → pure t c1 ≡ (ok u, c2)
    → IsRead ty t input out c1
    → IsRead ty u input out c2
moved ty {t} {u} {input} {out} {c1} {c2} e h =
    subst (λ x. IsRead ty x input out c2) (cc (ap (λ x. x.0) e))
      (subst (IsRead ty t input out) (ap (λ x. x.1) e) h)

recv_into-IsRead :
    (ty n : ℕ) (target : List ℕ → TargetAddr) (t : TargetAddr) (c c' : Conn)
    → ((buf : List ℕ) → length buf ≡ n → Names (ty ∷ buf) (target buf))
    → (recv_into buf_len n >>= λ buf. pure (target buf)) c ≡ (ok t, c')
    → IsRead ty t c.input.bytes c.output c'
recv_into-IsRead ty n target t c c' names e =
    by_step (recv_into buf_len n c) _ t c' e (λ buf c1 e1 f1.
      let (fits, taken) = recv_into-eq-ok buf_len n c buf c1 e1 in
      moved ty f1 (record {
        bytes = buf;
        names = names buf taken.size;
        came = taken.taken;
        silent = taken.silent;
      }))

target_domain-Names :
    (n : ℕ) (buf : List ℕ) (d : Str)
    → length buf ≡ n + 2
    → 1 ≤ n
    → n ≤ 254
    → from_utf8 (take n buf) ≡ some d
    → Names (0x03 ∷ n ∷ buf) (domain d (port_of (drop n buf)))
unfolding port_of
target_domain-Names n buf d h pos small text =
    let (hi, lo, len, port, whole) = split_port n buf h in
    let name = utf8-from_utf8 (take n buf) d text in
    let size : length (utf8 d) ≡ n = ap length name ∙ len in
    rw port (
      subst₂ (λ m t. Names (0x03 ∷ m ∷ t) (domain d (hi * 256 + lo))) size
        (ap (λ t. t ++ hi ∷ lo ∷ []) name ∙ whole)
        (names_domain d hi lo (omega (arith, size)) (omega (arith, size))))

target_domain-eq-ok :
    (o : Option Str) (n : ℕ) (buf input : List ℕ) (out : Sink) (t : TargetAddr) (c1 c' : Conn)
    → length buf ≡ n + 2
    → input ≡ n ∷ (buf ++ c1.input.bytes)
    → c1.output ≡ out
    → 1 ≤ n
    → n ≤ 254
    → from_utf8 (take n buf) ≡ o
    → target_domain o (drop n buf) c1 ≡ (ok t, c')
    → IsRead 0x03 t input out c'
unfolding target_domain
target_domain-eq-ok none n buf input out t c1 c' len came silent pos small text e = cc e
target_domain-eq-ok (some d) n buf input out t c1 c' len came silent pos small text e =
    moved 0x03 e (record {
      bytes = n ∷ buf;
      names = target_domain-Names n buf d len pos small text;
      came = came;
      silent = silent;
    })

domain_len_pos : (n : ℕ) → (n == 0 || ltb 255 n) ≡ false → 1 ≤ n
domain_len_pos n h = ground arith

read_domain-eq-ok :
    (len_buf input : List ℕ) (out : Sink) (t : TargetAddr) (c c' : Conn)
    → input ≡ len_buf ++ c.input.bytes
    → c.output ≡ out
    → read_domain len_buf c ≡ (ok t, c')
    → IsRead 0x03 t input out c'
unfolding read_domain
read_domain-eq-ok [] input out t c c' came silent e = cc e
read_domain-eq-ok (n ∷ []) input out t c c' came silent e =
    elim (Bool-cases (n == 0 || ltb 255 n)) [
      | inl h ↦ cc (rw h at e)
      | inr h ↦ by_step (recv_into buf_len (n + 2) c) _ t c' (rw h at e) (λ buf c1 e1 f1.
          let (fits, taken) = recv_into-eq-ok buf_len (n + 2) c buf c1 e1 in
          target_domain-eq-ok (from_utf8 (take n buf)) n buf input out t c1 c' taken.size
            (came ∙ ap (λ x. n ∷ x) taken.taken) (taken.silent ∙ silent) (domain_len_pos n h)
            (omega (arith, fits)) refl f1)
    ]
read_domain-eq-ok (a ∷ b ∷ r) input out t c c' came silent e = cc e

pub read_target-eq-ok :
    (ty : ℕ) (t : TargetAddr) (c c' : Conn)
    → read_target ty c ≡ (ok t, c')
    → IsRead ty t c.input.bytes c.output c'
unfolding read_target
read_target-eq-ok ty t c c' e = elim (Bool-cases (ty == 0x01)) [
  | inl h ↦
      subst (λ x. IsRead x t c.input.bytes c.output c') (sym ((==_iff ty 1).0 h))
        (recv_into-IsRead 0x01 6 target_v4 t c c' target_v4-Names (rw h at e))
  | inr h ↦ elim (Bool-cases (ty == 0x03)) [
    | inl k ↦
        subst (λ x. IsRead x t c.input.bytes c.output c') (sym ((==_iff ty 3).0 k))
          (by_step (recv_into buf_len 1 c) _ t c' (rw (h, k) at e) (λ buf c1 e1 f1.
            let (fits, taken) = recv_into-eq-ok buf_len 1 c buf c1 e1 in
            read_domain-eq-ok buf c.input.bytes c.output t c1 c' taken.taken taken.silent f1))
    | inr k ↦ elim (Bool-cases (ty == 0x04)) [
      | inl l ↦
          subst (λ x. IsRead x t c.input.bytes c.output c') (sym ((==_iff ty 4).0 l))
            (recv_into-IsRead 0x04 18 target_v6 t c c' target_v6-Names (rw (h, k, l) at e))
      | inr l ↦ cc (rw (h, k, l) at e)
    ]
  ]
]
