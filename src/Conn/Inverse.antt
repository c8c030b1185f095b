-- ===== src/Conn/Inverse.antt =====
-- What a handler that succeeded has done.
use reliz_protocol.Base.{
  ℕ, ◌≤◌, ◌≡◌, refl, sym, ap, List, ◌++◌, length, Outcome, ok, err, panic, ltb, leb, ge-of_ltb,
  Bool-cases, inl, inr,
}
use reliz_protocol.Base.Io.{
  write_all, ReadExact, got, unexpected_eof, failed, read_exact, read_exact-eq-got, Sink,
}
use reliz_protocol.Conn.{
  Failure, Handler, Conn, continue, lift, recv, recv_into, send, read_result, write_result,
}

module _ {A : Type 0} {B : Type 0} where
  continue-eq-ok :
      (r : Outcome Failure A × Conn) (f : A → Handler B) (b : B) (c' : Conn)
      → continue r f ≡ (ok b, c')
      → (a : A) × (c : Conn) × (r ≡ (ok a, c)) × (f a c ≡ (ok b, c'))
  continue-eq-ok (ok a, c) f b c' e = (a, c, refl, e)
  continue-eq-ok (err x, c) f b c' e = cc
  continue-eq-ok (panic, c) f b c' e = cc

  -- To use a success, it is enough to use that of the first step and that of the rest.
  pub by_step :
      (r : Outcome Failure A × Conn) (f : A → Handler B) (b : B) (c' : Conn) {P : Type 0}
      → continue r f ≡ (ok b, c')
      → ((a : A) (c : Conn) → r ≡ (ok a, c) → f a c ≡ (ok b, c') → P)
      → P
  by_step r f b c' e use_both =
      let (a, c, first, rest) = continue-eq-ok r f b c' e in use_both a c first rest

pub lift-eq-ok :
    {A : Type 0} (r : Outcome Failure A) (c : Conn) (a : A) (c' : Conn)
    → lift r c ≡ (ok a, c')
    → (r ≡ ok a) × (c ≡ c')
lift-eq-ok r c a c' e = (ap (λ t. t.0) e, ap (λ t. t.1) e)

-- What was taken stands before what is left, and nothing was written.
pub record IsTaken (n : ℕ) (xs : List ℕ) (c c' : Conn) : Type 0 where
  pub size : length xs ≡ n
  pub taken : c.input.bytes ≡ xs ++ c'.input.bytes
  pub silent : c'.output ≡ c.output

read_result-eq-ok :
    (r : ReadExact) (out : Sink) (xs : List ℕ) (c' : Conn)
    → read_result r out ≡ (ok xs, c')
    → (r ≡ got xs c'.input) × (c'.output ≡ out)
unfolding read_result
read_result-eq-ok (got bytes src) out xs c' e = (cc e, sym (ap (λ t. t.1.output) e))
read_result-eq-ok unexpected_eof out xs c' e = cc e
read_result-eq-ok failed out xs c' e = cc e

pub recv-eq-ok :
    (n : ℕ) (c : Conn) (xs : List ℕ) (c' : Conn) → recv n c ≡ (ok xs, c') → IsTaken n xs c c'
unfolding recv
recv-eq-ok n c xs c' e =
    let (reads, quiet) = read_result-eq-ok (read_exact n c.input) c.output xs c' e in
    let (size, split) = read_exact-eq-got n c.input xs c'.input reads in
    record { size = size; taken = split; silent = quiet }

pub recv_into-eq-ok :
    (size n : ℕ) (c : Conn) (xs : List ℕ) (c' : Conn)
    → recv_into size n c ≡ (ok xs, c')
    → (n ≤ size) × IsTaken n xs c c'
unfolding recv_into
recv_into-eq-ok size n c xs c' e = elim (Bool-cases (ltb size n)) [
  | inl h ↦ cc (rw h at e)
  | inr h ↦ (ge-of_ltb size n h, recv-eq-ok n c xs c' (rw h at e))
]

-- What was sent was written, and nothing was read.
pub record IsSent (bytes : List ℕ) (c c' : Conn) : Type 0 where
  pub unread : c'.input ≡ c.input
  pub wrote : c'.output.written ≡ c.output.written ++ bytes

pub send-eq-ok : (bytes : List ℕ) (c c' : Conn) → send bytes c ≡ (ok tt, c') → IsSent bytes c c'
unfolding send write_result write_all
send-eq-ok bytes c c' e = elim (Bool-cases (leb (length bytes) c.output.room)) [
  | inl h ↦
      let same = ap (λ t. t.1) (rw h at e) in
      record {
        unread = sym (ap (λ t. t.input) same);
        wrote = sym (ap (λ t. t.output.written) same);
      }
  | inr h ↦ cc (rw h at e)
]
