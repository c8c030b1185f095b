-- ===== src/Client/Fragment/Whole.antt =====
-- `fragmented_write` of ghost-client/src/fragment.rs, which writes a whole buffer in fragments.
pub mod Progress
use reliz_protocol.Base.{
  ℕ, ◌+◌, ◌-◌, min, List, [], ◌∷◌, length, take, drop, Bool, ◌||◌, Option, none, some, ◌==◌,
  if◌then◌else◌,
}
use reliz_protocol.Client.Fragment.{FragmentedStream, Poll, ready, failed, pending, chunk_len}

-- What a write that is awaited gives: it takes up to so many bytes, or fails.
abbrev pub Awaited : Type 0
Awaited = Option ℕ

-- The result, the writes that went out, and the stream.
abbrev pub Outgoing : Type 0
Outgoing = Poll × (List (List ℕ) × FragmentedStream)

-- One write of all that is left, behind `total` bytes.
last_write : List Awaited → List ℕ → ℕ → FragmentedStream → Outgoing
last_write [] buf total s = (pending, ([], s))
last_write (none ∷ answers) buf total s = (failed, ([], s))
last_write (some n ∷ answers) buf total s =
    (ready (total + min n (length buf)), (take n buf ∷ [], s))

-- Behind the loop.
behind_loop : List Awaited → List ℕ → ℕ → FragmentedStream → Outgoing
unfolding last_write
behind_loop answers [] total s = (ready total, ([], s))
behind_loop answers (b ∷ bytes) total s = last_write answers (b ∷ bytes) total s

abbrev is_over : FragmentedStream → List ℕ → Bool
is_over s buf = s.remaining_frag_bytes == 0 || length buf == 0

-- The bytes of a fragment that were taken.
abbrev taken : FragmentedStream → ℕ → List ℕ → ℕ
taken s n buf = min n (length (take (chunk_len s buf) buf))

-- The loop, with what is left of the buffer.
fragments : List Awaited → List ℕ → ℕ → FragmentedStream → Outgoing
unfolding behind_loop
fragments [] buf total s = if is_over s buf then behind_loop [] buf total s else (pending, ([], s))
fragments (none ∷ answers) buf total s =
    if is_over s buf then behind_loop (none ∷ answers) buf total s else (failed, ([], s))
fragments (some n ∷ answers) buf total s =
    let w = take n (take (chunk_len s buf) buf) in
    let (p, (writes, s1)) =
      fragments answers (drop (length w) buf) (total + taken s n buf)
        (record s { remaining_frag_bytes = s.remaining_frag_bytes - taken s n buf }) in
    if is_over s buf then behind_loop (some n ∷ answers) buf total s else (p, (w ∷ writes, s1))

unfoldable pub fragmented_write : List Awaited → List ℕ → FragmentedStream → Outgoing
unfolding fragments last_write
fragmented_write answers buf s =
    if is_over s buf then last_write answers buf 0 s else fragments answers buf 0 s
