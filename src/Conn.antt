-- ===== src/Conn.antt =====
-- A handler over one connection: exact reads from its peer, whole writes to it, `?` and `bail!`.
-- What was read and written stays so when the handler fails.
pub mod Laws
pub mod Inverse
use reliz_protocol.Base.{
  ℕ, ◌≤◌, ◌≡◌, List, [], ◌++◌, Bool, true, false, length, ltb, if◌then◌else◌, Outcome, ok, err,
  panic,
}
use reliz_protocol.Base.Io.{
  Source, Ending, closed, ReadExact, got, unexpected_eof, failed, read_exact, Sink, write_all,
}
use reliz_protocol.Base.Utf8.{Str}
use reliz_protocol.Common.Types.{ProtocolError}
use reliz_protocol.Crypto.{CryptoError}

-- `anyhow::Error`: an I/O error, a typed error that `?` converted, or a message of `bail!`, by its
-- fixed part.
pub data Failure : Type 0 where
  eof : Failure
  io : Failure
  crypto : CryptoError → Failure
  protocol : ProtocolError → Failure
  message : Str → Failure

pub record Conn : Type 0 where
  pub input : Source
  pub output : Sink

abbrev pub Handler {ℓ} : Type ℓ → Type ℓ
Handler A = Conn → Outcome Failure A × Conn

module _ {ℓ} {A : Type ℓ} where
  abbrev pub pure : A → Handler A
  pure a c = (ok a, c)

  abbrev pub fail : Failure → Handler A
  fail e c = (err e, c)

  -- A slice out of range, an `unwrap`.
  abbrev pub crash : Handler A
  crash c = (panic, c)

  -- `?` on a result.
  abbrev pub lift : Outcome Failure A → Handler A
  lift r c = (r, c)

module _ {ℓ κ} {A : Type ℓ} {B : Type κ} where
  abbrev pub continue : Outcome Failure A × Conn → (A → Handler B) → Outcome Failure B × Conn
  continue (ok a, c) f = f a c
  continue (err e, c) f = (err e, c)
  continue (panic, c) f = (panic, c)

  infixl 5 ◌>>=◌
  abbrev pub ◌>>=◌ : Handler A → (A → Handler B) → Handler B
  ◌>>=◌ m f c = continue (m c) f

infixl 5 ◌>>◌
abbrev pub ◌>>◌ {κ} : {B : Type κ} → Handler (Unit {0}) → Handler B → Handler B
m >> k = m >>= λ _. k

read_result : ReadExact → Sink → Outcome Failure (List ℕ) × Conn
read_result (got bytes src) out = (ok bytes, record { input = src; output = out })
read_result unexpected_eof out =
    (err eof, record { input = record { bytes = []; ending = closed }; output = out })
read_result failed out =
    (err io, record { input = record { bytes = []; ending = closed }; output = out })

-- `read_exact` into a buffer of `n` bytes.
unfoldable pub recv : ℕ → Handler (List ℕ)
unfolding read_result
recv n c = read_result (read_exact n c.input) c.output

-- `read_exact(&mut buf[..n])` where `buf` has `size` bytes: the slice panics beyond them.
unfoldable pub recv_into : ℕ → ℕ → Handler (List ℕ)
recv_into size n c = if ltb size n then (panic, c) else recv n c

write_result : Source → Sink × Bool → Outcome Failure (Unit {0}) × Conn
write_result src (out, true) = (ok tt, record { input = src; output = out })
write_result src (out, false) = (err io, record { input = src; output = out })

-- `write_all`
unfoldable pub send : List ℕ → Handler (Unit {0})
unfolding write_result
send bytes c = write_result c.input (write_all bytes c.output)
