-- ===== src/Client/Fragment/Whole/Progress.antt =====
-- What `fragmented_write` of ghost-client/src/fragment.rs puts on the wire.
use reliz_protocol.Base.{
  ℕ, ◌+◌, ◌-◌, ◌≤◌, ◌<◌, ◌≡◌, refl, sym, ap, subst, ◌∙◌, min, List, [], ◌∷◌, ◌++◌, append_assoc,
  append-nil, length, length-append, length-take, length-drop, take, drop, take-append-drop, concat,
  All, Bool, true, false, ◌||◌, none, some, arith, ◌==◌, if◌then◌else◌, Bool-cases, inl, inr,
}
use reliz_protocol.Client.Fragment.{FragmentedStream, ready, chunk_len}
use reliz_protocol.Client.Fragment.Order.{AreSmall, take-length-take_twice}
use reliz_protocol.Client.Fragment.Whole.{
  Awaited, Outgoing, last_write, behind_loop, is_over, taken, fragments, fragmented_write,
}

-- A write that takes a byte at least.
abbrev pub Takes : Awaited → Type 0
Takes none = ⊥
Takes (some n) = 0 < n

-- The writes are a beginning of the buffer: all of it, or more than what was to be fragmented. The
-- result, behind `total`, is their length, and the fragments among them are small.
pub record IsWritten (buf : List ℕ) (total : ℕ) (s : FragmentedStream) (o : Outgoing) : Type 0 where
  pub rest : List ℕ
  pub whole : concat o.1.0 ++ rest ≡ buf
  pub result : o.0 ≡ ready (total + length (concat o.1.0))
  pub enough : min (length buf) (s.remaining_frag_bytes + 1) ≤ length (concat o.1.0)
  pub small : AreSmall s.fragment_size s.remaining_frag_bytes o.1.0

over_cases : (m n : ℕ) → (m == 0 || n == 0) ≡ true → min m n ≡ 0
over_cases m n h = ground arith

open_cases : (m n : ℕ) → (m == 0 || n == 0) ≡ false → (0 < m) × (0 < n)
open_cases m n h = ground arith

last_write-IsWritten :
    (n : ℕ) (answers : List Awaited) (buf : List ℕ) (total : ℕ) (s : FragmentedStream)
    → 0 < n
    → is_over s buf ≡ true
    → IsWritten buf total s (last_write (some n ∷ answers) buf total s)
unfolding last_write
last_write-IsWritten n answers buf total s pos over =
    let len = length-take n buf in
    let all : concat (take n buf ∷ []) ≡ take n buf = append-nil (take n buf) in
    record {
      rest = drop n buf;
      whole = ap (λ t. t ++ drop n buf) all ∙ take-append-drop n buf;
      result = ap (λ k. ready (total + k)) (sym len ∙ ap length (sym all));
      enough =
          subst (λ t. min (length buf) (s.remaining_frag_bytes + 1) ≤ length t) (sym all)
            (omega (arith, len, over_cases s.remaining_frag_bytes (length buf) over));
      small =
          (λ budget. omega (arith, len, over_cases s.remaining_frag_bytes (length buf) over), tt);
    }

behind_loop-IsWritten :
    (answers : List Awaited) (buf : List ℕ) (total : ℕ) (s : FragmentedStream)
    → All Takes answers
    → length buf ≤ length answers
    → is_over s buf ≡ true
    → IsWritten buf total s (behind_loop answers buf total s)
unfolding behind_loop
behind_loop-IsWritten answers [] total s takes enough over = record {
  rest = [];
  whole = refl;
  result = ap ready (omega arith);
  enough = omega arith;
  small = tt;
}
behind_loop-IsWritten [] (b ∷ buf) total s takes enough over = absurd (omega arith)
behind_loop-IsWritten (none ∷ answers) (b ∷ buf) total s takes enough over = absurd takes.0
behind_loop-IsWritten (some n ∷ answers) (b ∷ buf) total s takes enough over =
    last_write-IsWritten n answers (b ∷ buf) total s takes.0 over

-- A fragment before what the loop goes on with.
fragment-IsWritten :
    (n : ℕ) (buf : List ℕ) (total : ℕ) (s : FragmentedStream) (o : Outgoing)
    → 0 < n
    → 0 < s.fragment_size
    → is_over s buf ≡ false
    → let w = take n (take (chunk_len s buf) buf) in
      IsWritten
        (drop (length w) buf)
        (total + taken s n buf)
        (record s { remaining_frag_bytes = s.remaining_frag_bytes - taken s n buf })
        o
      → IsWritten buf total s (o.0, (w ∷ o.1.0, o.1.1))
fragment-IsWritten n buf total s o pos size on later =
    let c = chunk_len s buf in
    let w = take n (take c buf) in
    let len = length-take n (take c buf) in
    let len' = length-take c buf in
    let some_left = open_cases s.remaining_frag_bytes (length buf) on in
    let long = length-append w (concat o.1.0) in
    let counted : total + taken s n buf + length (concat o.1.0)
        ≡ total + length (w ++ concat o.1.0) =
      omega (arith, len, long) in
    record {
      rest = later.rest;
      whole =
          append_assoc w (concat o.1.0) later.rest
          ∙ ap (λ t. w ++ t) later.whole
          ∙ ap (λ t. t ++ drop (length w) buf) (sym (take-length-take_twice n c buf))
          ∙ take-append-drop (length w) buf;
      result = later.result ∙ ap ready counted;
      enough = omega (
        arith,
        later.enough,
        long,
        len,
        len',
        some_left.0,
        some_left.1,
        length-drop (length w) buf,
      );
      small = (
        λ budget. omega (arith, len, len'),
        subst (λ k. AreSmall s.fragment_size (s.remaining_frag_bytes - k) o.1.0) (sym len)
            later.small,
      );
    }

fragments-IsWritten :
    (answers : List Awaited) (buf : List ℕ) (total : ℕ) (s : FragmentedStream)
    → All Takes answers
    → 0 < s.fragment_size
    → length buf ≤ length answers
    → IsWritten buf total s (fragments answers buf total s)
unfolding fragments
fragments-IsWritten [] buf total s takes size enough = elim (Bool-cases (is_over s buf)) [
  | inl h ↦ rw h (behind_loop-IsWritten [] buf total s takes enough h)
  | inr h ↦ absurd (omega (arith, (open_cases s.remaining_frag_bytes (length buf) h).1))
]
fragments-IsWritten (none ∷ answers) buf total s takes size enough = absurd takes.0
fragments-IsWritten (some n ∷ answers) buf total s takes size enough =
    elim (Bool-cases (is_over s buf)) [
      | inl h ↦ rw h (behind_loop-IsWritten (some n ∷ answers) buf total s takes enough h)
      | inr h ↦
          let c = chunk_len s buf in
          let w = take n (take c buf) in
          let some_left = open_cases s.remaining_frag_bytes (length buf) h in
          let later =
            fragments-IsWritten answers (drop (length w) buf) (total + taken s n buf)
              (record s { remaining_frag_bytes = s.remaining_frag_bytes - taken s n buf }) takes.1
              size
              (omega (
                arith,
                length-drop (length w) buf,
                length-take n (take c buf),
                length-take c buf,
                takes.0,
                some_left.0,
                some_left.1,
              )) in
          rw h (fragment-IsWritten n buf total s _ takes.0 size h later)
    ]

chosen-IsWritten :
    (buf : List ℕ) (total : ℕ) (s : FragmentedStream) (test : Bool) (o o' : Outgoing)
    → (test ≡ true → IsWritten buf total s o)
    → IsWritten buf total s o'
    → IsWritten buf total s (if test then o else o')
chosen-IsWritten buf total s true o o' written written' = written refl
chosen-IsWritten buf total s false o o' written written' = written'

-- When the TCP stream takes a byte at least of each write, and there are more writes to answer than
-- bytes in the buffer, `fragmented_write` of a stream whose fragments have a byte at least
-- succeeds. What goes out is a beginning of the buffer, in order, and the result is its length:
-- it is the whole buffer, or more than all the bytes that were to be fragmented. Each write that
-- starts within the bytes to be fragmented is of at most the fragment's size and ends there too.
pub fragmented_write-IsWritten :
    (answers : List Awaited) (buf : List ℕ) (s : FragmentedStream)
    → All Takes answers
    → 0 < s.fragment_size
    → length buf < length answers
    → IsWritten buf 0 s (fragmented_write answers buf s)
unfolding fragmented_write
fragmented_write-IsWritten [] buf s takes size enough = absurd (omega arith)
fragmented_write-IsWritten (none ∷ answers) buf s takes size enough = absurd takes.0
fragmented_write-IsWritten (some n ∷ answers) buf s takes size enough =
    chosen-IsWritten buf 0 s (is_over s buf) _ _
      (λ over. last_write-IsWritten n answers buf 0 s takes.0 over)
      (fragments-IsWritten (some n ∷ answers) buf 0 s takes size (omega arith))
