-- ===== src/Client/Fragment/Order.antt =====
-- What the writes of a fragmented stream put on the wire.
use reliz_protocol.Base.{
  ℕ, zero, suc, ◌-◌, ◌≤◌, ◌<◌, ◌≡◌, refl, sym, ap, min, subst, ◌∙◌, List, [], ◌∷◌, ◌++◌,
  append_assoc, length, length-take, length-drop, take, drop, take-append-drop, concat, All, true,
  false, arith, ◌==◌, Bool-cases, inl, inr,
}
use reliz_protocol.Client.Fragment.{
  FragmentedStream, Answer, accepts, not_ready, refuses, Poll, counted, direct, inner_write,
  chunk_len, poll_write, announced, offer,
}

-- Writes that start within the first `budget` bytes are of at most `size` bytes and end there too.
abbrev pub AreSmall : ℕ → ℕ → List (List ℕ) → Type 0
AreSmall size budget [] = Unit {0}
AreSmall size budget (w ∷ writes) =
    (0 < budget → (length w ≤ size) × (length w ≤ budget))
    × AreSmall size (budget - length w) writes

-- What one write does.
record IsWrite (s : FragmentedStream) (buf : List ℕ) (r : Poll × (List ℕ × FragmentedStream))
    : Type 0 where
  count : announced r.0 ≡ length r.1.0
  prefix : take (announced r.0) buf ≡ r.1.0
  small :
      0 < s.remaining_frag_bytes
      → (length r.1.0 ≤ s.fragment_size) × (length r.1.0 ≤ s.remaining_frag_bytes)
  same_size : r.1.1.fragment_size ≡ s.fragment_size
  left : r.1.1.remaining_frag_bytes ≡ s.remaining_frag_bytes - length r.1.0

take-length-take : (n : ℕ) (xs : List ℕ) → take (length (take n xs)) xs ≡ take n xs
take-length-take zero xs = refl
take-length-take (suc n) [] = refl
take-length-take (suc n) (x ∷ xs) = ap (λ t. x ∷ t) (take-length-take n xs)

pub take-length-take_twice :
    (n m : ℕ) (xs : List ℕ) → take (length (take n (take m xs))) xs ≡ take n (take m xs)
take-length-take_twice zero m xs = refl
take-length-take_twice (suc n) zero xs = refl
take-length-take_twice (suc n) (suc m) [] = refl
take-length-take_twice (suc n) (suc m) (x ∷ xs) = ap (λ t. x ∷ t) (take-length-take_twice n m xs)

==-sound : (n : ℕ) → (n == 0) ≡ true → n ≡ 0
==-sound n h = ground arith

counted-IsWrite :
    (s : FragmentedStream) (answer : Answer) (buf : List ℕ)
    → IsWrite s buf (counted s (inner_write answer (take (chunk_len s buf) buf)))
counted-IsWrite s (accepts n) buf =
    let c = chunk_len s buf in
    let out = take n (take c buf) in
    let count : min n (length (take c buf)) ≡ length out =
      omega (arith, length-take n (take c buf)) in
    record {
      count = count;
      prefix = ap (λ k. take k buf) count ∙ take-length-take_twice n c buf;
      small = λ pos. omega (arith, length-take n (take c buf), length-take c buf);
      same_size = refl;
      left = omega (arith, length-take n (take c buf));
    }
counted-IsWrite s not_ready buf = record {
  count = refl;
  prefix = refl;
  small = λ pos. omega arith;
  same_size = refl;
  left = omega arith;
}
counted-IsWrite s refuses buf = record {
  count = refl;
  prefix = refl;
  small = λ pos. omega arith;
  same_size = refl;
  left = omega arith;
}

direct-IsWrite :
    (s : FragmentedStream) (answer : Answer) (buf : List ℕ)
    → s.remaining_frag_bytes ≡ 0
    → IsWrite s buf (direct s (inner_write answer buf))
direct-IsWrite s (accepts n) buf none_left = record {
  count = sym (length-take n buf);
  prefix = ap (λ k. take k buf) (sym (length-take n buf)) ∙ take-length-take n buf;
  small = λ pos. absurd (omega arith);
  same_size = refl;
  left = omega arith;
}
direct-IsWrite s not_ready buf none_left = record {
  count = refl;
  prefix = refl;
  small = λ pos. omega arith;
  same_size = refl;
  left = omega arith;
}
direct-IsWrite s refuses buf none_left = record {
  count = refl;
  prefix = refl;
  small = λ pos. omega arith;
  same_size = refl;
  left = omega arith;
}

poll_write-IsWrite :
    (s : FragmentedStream) (answer : Answer) (buf : List ℕ)
    → IsWrite s buf (poll_write s answer buf)
poll_write-IsWrite s answer buf = elim (Bool-cases (s.remaining_frag_bytes == 0)) [
  | inl e ↦
      unfold poll_write in rw e (direct-IsWrite s answer buf (==-sound s.remaining_frag_bytes e))
  | inr e ↦ unfold poll_write in rw e (counted-IsWrite s answer buf)
]

-- However the TCP stream answers, a caller that goes on behind the bytes that `poll_write` announced
-- has, in what went out and what it has left, together what was to be written: nothing is lost,
-- repeated or swapped.
pub concat-offer :
    (answers : List Answer) (buf : List ℕ) (s : FragmentedStream)
    → let r = offer answers buf s in concat r.0 ++ r.1.0 ≡ buf
unfolding offer
concat-offer [] buf s = refl
concat-offer (a ∷ answers) buf s =
    let w = poll_write s a buf in
    let rest = drop (announced w.0) buf in
    append_assoc w.1.0 (concat (offer answers rest w.1.1).0) (offer answers rest w.1.1).1.0
    ∙ ap (λ t. w.1.0 ++ t) (concat-offer answers rest w.1.1)
    ∙ ap (λ t. t ++ rest) (sym (poll_write-IsWrite s a buf).prefix)
    ∙ take-append-drop (announced w.0) buf

-- However the TCP stream answers, each write that starts within the bytes to be fragmented is of
-- at most the fragment's size and does not reach beyond them.
pub offer-AreSmall :
    (answers : List Answer) (buf : List ℕ) (s : FragmentedStream)
    → AreSmall s.fragment_size s.remaining_frag_bytes (offer answers buf s).0
unfolding offer
offer-AreSmall [] buf s = tt
offer-AreSmall (a ∷ answers) buf s =
    let w = poll_write s a buf in
    let is = poll_write-IsWrite s a buf in
    let writes = (offer answers (drop (announced w.0) buf) w.1.1).0 in
    let later = offer-AreSmall answers (drop (announced w.0) buf) w.1.1 in
    (
      is.small,
      subst (λ n. AreSmall s.fragment_size n writes) is.left
          (subst (λ n. AreSmall n w.1.1.remaining_frag_bytes writes) is.same_size later),
    )

-- An answer that takes a byte at least.
abbrev pub Accepts : Answer → Type 0
Accepts (accepts n) = 0 < n
Accepts not_ready = ⊥
Accepts refuses = ⊥

poll_write_progress :
    (s : FragmentedStream) (answer : Answer) (buf : List ℕ)
    → Accepts answer
    → 0 < s.fragment_size
    → 0 < length buf
    → 0 < length (poll_write s answer buf).1.0
poll_write_progress s (accepts n) buf h size some_left =
    elim (Bool-cases (s.remaining_frag_bytes == 0)) [
      | inl e ↦ unfold poll_write in rw e (omega (arith, length-take n buf))
      | inr e ↦
          let c = chunk_len s buf in
          unfold poll_write in
          rw e (
            omega (
              arith,
              not_zero s.remaining_frag_bytes e,
              length-take n (take c buf),
              length-take c buf,
            ))
    ]
  where
    not_zero : (n : ℕ) → (n == 0) ≡ false → 0 < n
    not_zero n h = ground arith
poll_write_progress s not_ready buf h size some_left = absurd h
poll_write_progress s refuses buf h size some_left = absurd h

-- A stream whose fragments have a byte at least writes everything, when the TCP stream takes a
-- byte at least each time and as often as there are bytes.
pub offer_complete :
    (answers : List Answer) (buf : List ℕ) (s : FragmentedStream)
    → All Accepts answers
    → 0 < s.fragment_size
    → length buf ≤ length answers
    → (offer answers buf s).1.0 ≡ []
unfolding offer
offer_complete [] [] s h size enough = refl
offer_complete [] (b ∷ buf) s h size enough = absurd (omega arith)
offer_complete (a ∷ answers) [] s h size enough =
    let w = poll_write s a [] in
    let is = poll_write-IsWrite s a [] in
    offer_complete answers (drop (announced w.0) []) w.1.1 h.1
      (subst (λ n. 0 < n) (sym is.same_size) size)
      (omega (arith, length-drop {A = ℕ} (announced w.0) []))
offer_complete (a ∷ answers) (b ∷ buf) s h size enough =
    let w = poll_write s a (b ∷ buf) in
    let is = poll_write-IsWrite s a (b ∷ buf) in
    offer_complete answers (drop (announced w.0) (b ∷ buf)) w.1.1 h.1
      (subst (λ n. 0 < n) (sym is.same_size) size)
      (omega (
        arith,
        is.count,
        length-drop (announced w.0) (b ∷ buf),
        poll_write_progress s a (b ∷ buf) h.0 size (omega arith),
      ))
