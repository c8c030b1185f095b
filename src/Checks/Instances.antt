-- ===== src/Checks/Instances.antt =====
-- Concrete functions for what the crates only call.
use reliz_protocol.Base.{
  ℕ, zero, suc, ◌+◌, ◌-◌, ◌^◌, ◌≤◌, ◌≡◌, refl, ap, ◌∙◌, List, ◌++◌, Option, some, length,
  length-append, length-replicate, take, take-append, replicate, All, arith,
}
use reliz_protocol.Base.Bytes.{IsByte}
use reliz_protocol.Base.Random.{Rng}
use reliz_protocol.Base.Utf8.{chars}
use reliz_protocol.Crypto.{Aead}

pub replicate-IsByte : (n b : ℕ) → IsByte b → All IsByte (replicate n b)
replicate-IsByte zero b h = tt
replicate-IsByte (suc n) b h = (h, replicate-IsByte n b h)

-- The largest number of the range, and bytes of one value.
abbrev pub steady : Rng
steady = record {
  State = ℕ;
  gen_range = λ lo hi s. (hi, s + 1);
  fill = λ n s. (replicate n 7, s + 1);
  gen_range_bounds = λ lo hi s h. (h, le_self hi);
  length-fill = λ n s. length-replicate n 7;
  fill-IsByte = λ n s. replicate-IsByte n 7 seven;
}
  where
    le_self : (n : ℕ) → n ≤ n
    le_self n = omega arith

    seven : IsByte 7
    seven = omega arith

abbrev pub tag : List ℕ
tag = replicate 16 0

abbrev pub unsealed : List ℕ → Option (List ℕ)
unsealed c = some (take (length c - 16) c)

pub unsealed_lem : (p : List ℕ) → unsealed (p ++ tag) ≡ some p
unsealed_lem p =
    ap (λ n. some (take n (p ++ tag))) drops ∙ ap some (take-append (length p) p tag refl)
  where
    drops : length (p ++ tag) - 16 ≡ length p
    drops = omega (arith, length-append p tag)

-- The message itself with sixteen zeros behind it.
abbrev pub transparent : Aead
transparent = record {
  seal = λ k n p. some (p ++ tag);
  unseal = λ k n c. unsealed c;
  hkdf = λ salt ikm info. replicate 32 1;
  error_text = chars "aead::Error";
  max_len = 65536;
  frames_fit = fits;
  seals = λ k n p h. (p ++ tag, refl, length-append p tag, unsealed_lem p);
  length-hkdf = λ salt ikm info. refl;
}
  where
    fits : 2 ^ 16 ≤ 65536
    fits = omega arith
