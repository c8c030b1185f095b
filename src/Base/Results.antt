-- ===== src/Base/Results.antt =====
-- What a Rust call comes to: a value, an error that is returned, or a panic.

pub data Outcome {ℓ κ} (E : Type ℓ) (A : Type κ) : Type (ℓ ⊔ κ) where
  ok : A → Outcome E A
  err : E → Outcome E A
  panic : Outcome E A

infixl 5 ◌>>=◌
abbrev pub ◌>>=◌ {ℓ κ μ} :
    {E : Type ℓ} {A : Type κ} {B : Type μ} → Outcome E A → (A → Outcome E B) → Outcome E B
ok a >>= f = f a
err e >>= f = err e
panic >>= f = panic

-- `.expect(…)`: an error panics.
abbrev pub expect {ℓ κ} : {E : Type ℓ} {A : Type κ} → Outcome E A → Outcome E A
expect (ok a) = ok a
expect (err e) = panic
expect panic = panic
