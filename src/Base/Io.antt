-- ===== src/Base/Io.antt =====
-- Byte streams as the tunnels use them. A `Source` holds the bytes that its peer will have sent
-- and how it ends; a `Sink` holds what it took and how many bytes it takes before it breaks.
use Prim.Native.Nat.{ℕ, ◌-◌, ◌≤◌, ◌<◌}
use mathlib.Core.Path.{◌≡◌, sym, ap, ap₂, ◌∙◌}
use mathlib.Core.Logic.{inl, inr}
use mathlib.Core.Bool.{Bool, true, false}
use mathlib.Core.List.{List, ◌++◌}
use native.Mathlib.Omega.{arith}
use reliz_protocol.Base.Tests.{leb, if◌then◌else◌, leb-of_le, le-of_leb, lt-of_leb, Bool-cases}
use reliz_protocol.Base.Lists.{
  length, take, drop, length-append, take-append, drop-append, take-append-drop, length-take,
}

pub data Ending : Type 0 where
  closed : Ending
  broken : Ending

pub record Source : Type 0 where
  pub bytes : List ℕ
  pub ending : Ending

pub data ReadExact : Type 0 where
  got : List ℕ → Source → ReadExact
  unexpected_eof : ReadExact
  failed : ReadExact

-- `read_exact` of `n` bytes.
unfoldable pub read_exact : ℕ → Source → ReadExact
read_exact n s =
    if leb n (length s.bytes)
    then got (take n s.bytes) (record s { bytes = drop n s.bytes })
    else elim s.ending [ closed ↦ unexpected_eof | broken ↦ failed ]

-- One `read` into a buffer: some bytes (none of them at the end of the stream), or an error.
pub data Read : Type 0 where
  chunk : List ℕ → Read
  read_error : Read

pub record Sink : Type 0 where
  pub written : List ℕ
  pub room : ℕ

-- `write_all`: the sink afterwards, and whether every byte was taken.
unfoldable pub write_all : List ℕ → Sink → Sink × Bool
write_all bytes s =
    if leb (length bytes) s.room
    then (record { written = s.written ++ bytes; room = s.room - length bytes }, true)
    else (record { written = s.written ++ take s.room bytes; room = 0 }, false)

pub read_exact-append :
    (n : ℕ) (xs rest : List ℕ) (e : Ending)
    → length xs ≡ n
    → read_exact n (record { bytes = xs ++ rest; ending = e })
      ≡ got xs (record { bytes = rest; ending = e })
read_exact-append n xs rest e h =
    unfold read_exact in
    rw (
      leb-of_le n (length (xs ++ rest)) (omega (arith, length-append xs rest)),
      take-append n xs rest h,
      drop-append n xs rest h,
    )

pub write_all_lem :
    (bytes : List ℕ) (s : Sink)
    → length bytes ≤ s.room
    → write_all bytes s
      ≡ (record { written = s.written ++ bytes; room = s.room - length bytes }, true)
write_all_lem bytes s h = unfold write_all in rw (leb-of_le _ _ h)

got-eq-got : {xs ys : List ℕ} {s t : Source} → got xs s ≡ got ys t → (xs ≡ ys) × (s.bytes ≡ t.bytes)
got-eq-got e = (cc e, cc e)

ended-ne-got :
    (e : Ending) (xs : List ℕ) (s : Source)
    → elim e as (λ x. ReadExact) [ closed ↦ unexpected_eof | broken ↦ failed ] ≡ got xs s
    → ⊥
ended-ne-got closed xs s h = cc h
ended-ne-got broken xs s h = cc h

-- What an exact read gave stands before what is left.
pub read_exact-eq-got :
    (n : ℕ) (s : Source) (xs : List ℕ) (s' : Source)
    → read_exact n s ≡ got xs s'
    → (length xs ≡ n) × (s.bytes ≡ xs ++ s'.bytes)
unfolding read_exact
read_exact-eq-got n s xs s' e = elim (Bool-cases (leb n (length s.bytes))) [
  | inl h ↦
      let (bytes, rest) = got-eq-got (rw h at e) in
      (
        omega (arith, ap length bytes, length-take n s.bytes, le-of_leb n (length s.bytes) h),
        sym (take-append-drop n s.bytes) ∙ ap₂ ◌++◌ bytes rest,
      )
  | inr h ↦ absurd (ended-ne-got s.ending xs s' (rw h at e))
]

pub read_exact-eq-eof : (n : ℕ) (s : Source) → read_exact n s ≡ unexpected_eof → length s.bytes < n
unfolding read_exact
read_exact-eq-eof n s e = elim (Bool-cases (leb n (length s.bytes))) [
  | inl h ↦ cc (rw h at e)
  | inr h ↦ lt-of_leb n (length s.bytes) h
]
