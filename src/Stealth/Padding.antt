-- ===== src/Stealth/Padding.antt =====
-- How much padding a strategy adds, and what it leaves in the buffer.
use reliz_protocol.Base.{
  ℕ, zero, suc, ◌+◌, ◌*◌, ◌-◌, ◌%◌, ◌/◌, ◌^◌, ◌≤◌, ◌<◌, ◌≡◌, refl, ap, ◌∙◌, min, max, List, [], ◌∷◌,
  ◌++◌, length, take, take-append, length-append, some, true, false, arith, lt→ltb, leb, le-of_leb,
  Bool-cases, inl, inr, ◌==◌,
}
use native.Mathlib.Nat.{
  mod-lt, div-add-mod', add-mul-mod_self_right, mul-add-mod_self_right, mod_self,
}
use reliz_protocol.Base.Random.{Rng}
use reliz_protocol.Base.Bytes.{as_u8}
use reliz_protocol.Stealth.{
  PaddingStrategy, fixed, random, normalize_to_multiple, to_multiple, calculate_padding_len, padded,
  apply_padding, normalize_packet_size,
}

-- A strategy whose lengths fit the byte that marks them.
abbrev pub FitsMark : PaddingStrategy → Type 0
FitsMark (fixed len) = len ≤ 255
FitsMark (random min_len max_len) = Unit {0}
FitsMark (normalize_to_multiple multiple max_padding) = (0 < multiple) × (max_padding ≤ 255)

module _ (rng : Rng) where
  open rng use {State, gen_range, fill, gen_range_bounds, length-fill}

  to_multiple-le :
      (multiple max_padding remainder : ℕ) (s : State)
      → (to_multiple rng multiple max_padding remainder s).0 ≤ max_padding
  to_multiple-le multiple max_padding remainder s = elim (Bool-cases (remainder == 0)) [
    | inl e ↦ unfold to_multiple in rw e (omega arith)
    | inr e ↦ unfold to_multiple in rw e (omega arith)
  ]

  -- Every strategy whose lengths fit a byte gives such a length and does not panic.
  calculate-FitsMark :
      (n : ℕ) (strategy : PaddingStrategy) (s : State)
      → FitsMark strategy
      → (len : ℕ) × (s1 : State) × (calculate_padding_len rng n strategy s ≡ some (len, s1))
        × (len ≤ 255)
  calculate-FitsMark n (fixed len) s h = (len, s, unfold calculate_padding_len in refl, h)
  calculate-FitsMark n (random min_len max_len) s h =
      let hi = min max_len 255 in
      let lo = min min_len hi in
      (
        (gen_range lo hi s).0,
        (gen_range lo hi s).1,
        unfold calculate_padding_len in refl,
        omega (arith, gen_range_bounds lo hi s (omega arith)),
      )
  calculate-FitsMark n (normalize_to_multiple multiple max_padding) s h =
      let r = to_multiple rng multiple max_padding (n % multiple) s in
      (
        r.0,
        r.1,
        unfold calculate_padding_len in rw (not_zero multiple h.0),
        omega (arith, h.1, to_multiple-le multiple max_padding (n % multiple) s),
      )
    where
      not_zero : (n : ℕ) → 0 < n → (n == 0) ≡ false
      not_zero n h = ground arith

  padded-mark :
      (buf : List ℕ) (len : ℕ) (s : State)
      → len ≤ 255
      → (pad : List ℕ) × (s1 : State) × (length pad ≡ len)
        × (padded rng buf len s ≡ (buf ++ len ∷ pad, (len, s1)))
  padded-mark buf zero s h = ([], s, refl, unfold padded in refl)
  padded-mark buf (suc n) s h = (
    (fill (suc n) s).0,
    (fill (suc n) s).1,
    length-fill (suc n) s,
    unfold padded in
        rw (lt→ltb 0 (suc n) (omega arith)) (
          ap (λ m. (buf ++ m ∷ (fill (suc n) s).0, (suc n, (fill (suc n) s).1))) (small (suc n) h)),
  )
    where
      small : (n : ℕ) → n ≤ 255 → as_u8 n ≡ n
      small n h = omega arith

  -- With a strategy whose lengths fit a byte, the buffer is kept and followed by one byte, which is
  -- the length returned, and by just as many bytes of padding.
  pub apply_padding-mark :
      (buf : List ℕ) (strategy : PaddingStrategy) (s : State)
      → FitsMark strategy
      → (len : ℕ) × (pad : List ℕ) × (s1 : State) × (length pad ≡ len)
        × (len ≤ 255)
        × (apply_padding rng buf strategy s ≡ some (buf ++ len ∷ pad, (len, s1)))
  apply_padding-mark buf strategy s h =
      let (len, s1, e, small) = calculate-FitsMark (length buf) strategy s h in
      let (pad, s2, size, p) = padded-mark buf len s1 small in
      (len, pad, s2, size, small, unfold apply_padding in rw e (ap some p))

  -- The strategy for a positive multiple, with room for twice the multiple and a limit below 2 ^
  -- 64, does fill up to a multiple.
  pub calculate_padding_multiple :
      (n multiple max_padding : ℕ) (s : State)
      → 0 < multiple
      → 2 * multiple ≤ max_padding
      → max_padding < 2 ^ 64
      → (len : ℕ) × (s1 : State) × (calculate_padding_len rng n
            (normalize_to_multiple multiple max_padding)
            s
          ≡ some (len, s1))
        × ((n + len) % multiple ≡ 0)
  calculate_padding_multiple n multiple max_padding s pos space fits =
      let r = to_multiple rng multiple max_padding (n % multiple) s in
      (r.0, r.1, unfold calculate_padding_len in rw (not_zero multiple pos), filled)
    where
      not_zero : (n : ℕ) → 0 < n → (n == 0) ≡ false
      not_zero n h = ground arith

      is_zero : (r : ℕ) → (r == 0) ≡ true → r ≡ 0
      is_zero r h = ground arith

      -- The product of at most two multiples neither wraps nor is cut.
      unwrapped : (k : ℕ) → k ≤ 2 → min (k * multiple % 2 ^ 64) max_padding ≡ k * multiple
      unwrapped zero h = omega arith
      unwrapped (suc zero) h = omega arith
      unwrapped (suc (suc zero)) h = omega arith
      unwrapped (suc (suc (suc k))) h = absurd (omega arith)

      up : n + min (multiple - n % multiple) max_padding ≡ n / multiple * multiple + multiple
      up = omega (arith, div-add-mod' n multiple, mod-lt n pos)

      filled : (n + (to_multiple rng multiple max_padding (n % multiple) s).0) % multiple ≡ 0
      filled = elim (Bool-cases (n % multiple == 0)) [
        | inl e ↦
            unfold to_multiple in
            rw (e, unwrapped (gen_range 0 2 s).0 (gen_range_bounds 0 2 s (omega arith)).1)
              (add-mul-mod_self_right n (gen_range 0 2 s).0 multiple ∙ is_zero (n % multiple) e)
        | inr e ↦
            unfold to_multiple in
            rw (e, up) (mul-add-mod_self_right (n / multiple) multiple multiple ∙ mod_self multiple)
      ]

  -- A packet keeps its bytes and gets the target size where it was shorter.
  pub normalize_packet_size_lem :
      (bytes : List ℕ) (target_size : ℕ) (s : State)
      → let r = normalize_packet_size rng bytes target_size s in
        (take (length bytes) r.0 ≡ bytes) × (length r.0 ≡ max (length bytes) target_size)
  normalize_packet_size_lem bytes target_size s =
      elim (Bool-cases (leb target_size (length bytes))) [
        | inl e ↦
            unfold normalize_packet_size in
            rw e (take_all bytes, omega (arith, le-of_leb target_size (length bytes) e))
        | inr e ↦
            unfold normalize_packet_size in
            rw e (
              take-append (length bytes) bytes _ refl,
              omega (
                arith,
                not_leb target_size (length bytes) e,
                length-append bytes (fill (target_size - length bytes) s).0,
                length-fill (target_size - length bytes) s,
              ),
            )
      ]
    where
      take_all : (xs : List ℕ) → take (length xs) xs ≡ xs
      take_all [] = refl
      take_all (x ∷ xs) = ap (λ t. x ∷ t) (take_all xs)

      not_leb : (a b : ℕ) → leb a b ≡ false → b < a
      not_leb a b h = ground arith
