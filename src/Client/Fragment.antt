-- ===== src/Client/Fragment.antt =====
-- `FragmentedStream` of ghost-client/src/fragment.rs: its writes, over a TCP stream.
pub mod Order
pub mod Whole
use reliz_protocol.Base.{
  ℕ, zero, suc, ◌+◌, ◌-◌, ◌≤◌, ◌<◌, ◌≡◌, refl, sym, ap, subst, ◌∙◌, min, max, List, [], ◌∷◌, ◌++◌,
  append_assoc, length, length-take, length-drop, take, drop, take-append-drop, concat, All, Bool,
  true, false, arith, ◌==◌, if◌then◌else◌, Bool-cases, inl, inr,
}

-- The stream's state without the TCP stream below it, which is the answers that it gives.
pub record FragmentedStream : Type 0 where
  pub remaining_frag_bytes : ℕ
  pub fragment_size : ℕ
  pub fragment_delay_ms : ℕ

-- How the TCP stream answers a write: it takes up to so many bytes, is not ready, or fails.
pub data Answer : Type 0 where
  accepts : ℕ → Answer
  not_ready : Answer
  refuses : Answer

-- `Poll<io::Result<usize>>`
pub data Poll : Type 0 where
  ready : ℕ → Poll
  failed : Poll
  pending : Poll

unfoldable pub new : ℕ → ℕ → ℕ → FragmentedStream
new frag_bytes fragment_size delay_ms = record {
  remaining_frag_bytes = frag_bytes;
  fragment_size = max fragment_size 1;
  fragment_delay_ms = delay_ms;
}

unfoldable pub maybe_fragment : Bool → ℕ → ℕ → ℕ → FragmentedStream
unfolding new
maybe_fragment enabled frag_bytes frag_size delay_ms =
    if enabled then new frag_bytes frag_size delay_ms else new 0 1 0

-- The TCP stream's `poll_write`: its result and the bytes that go out.
abbrev inner_write : Answer → List ℕ → Poll × List ℕ
inner_write (accepts n) buf = (ready (min n (length buf)), take n buf)
inner_write not_ready buf = (pending, [])
inner_write refuses buf = (failed, [])

-- What is left to be fragmented after a write.
abbrev counted : FragmentedStream → Poll × List ℕ → Poll × (List ℕ × FragmentedStream)
counted s (ready n, bytes) =
    (ready n, (bytes, record s { remaining_frag_bytes = s.remaining_frag_bytes - n }))
counted s (failed, bytes) = (failed, (bytes, s))
counted s (pending, bytes) = (pending, (bytes, s))

abbrev pub chunk_len : FragmentedStream → List ℕ → ℕ
chunk_len s buf = min (min s.fragment_size s.remaining_frag_bytes) (length buf)

abbrev direct : FragmentedStream → Poll × List ℕ → Poll × (List ℕ × FragmentedStream)
direct s (p, bytes) = (p, (bytes, s))

-- The result, the bytes that go out in this write, and the stream.
unfoldable pub poll_write : FragmentedStream → Answer → List ℕ → Poll × (List ℕ × FragmentedStream)
poll_write s answer buf =
    if s.remaining_frag_bytes == 0
    then direct s (inner_write answer buf)
    else counted s (inner_write answer (take (chunk_len s buf) buf))

-- The number of bytes that a result announces.
abbrev pub announced : Poll → ℕ
announced (ready n) = n
announced failed = 0
announced pending = 0

-- A caller that offers at each write what is behind the bytes that the results announced: the
-- writes, what is left, and the stream.
unfoldable pub offer :
    List Answer → List ℕ → FragmentedStream → List (List ℕ) × (List ℕ × FragmentedStream)
offer [] buf s = ([], (buf, s))
offer (a ∷ answers) buf s =
    let (p, (bytes, s1)) = poll_write s a buf in
    let (writes, r) = offer answers (drop (announced p) buf) s1 in (bytes ∷ writes, r)
