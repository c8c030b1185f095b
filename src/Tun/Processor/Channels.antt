-- ===== src/Tun/Processor/Channels.antt =====
-- A channel carries the messages of one flow only.
use reliz_protocol.Base.{
  ℕ, ◌+◌, ◌≤◌, ◌≡◌, refl, List, [], ◌∷◌, ◌++◌, not, ◌&&◌, Bool-cases, inl, inr, Option, none, some,
  arith, ◌==◌, if◌then◌else◌,
}
use reliz_protocol.Tun.Session
use reliz_protocol.Tun.Session.{FlowKey, same_flow}
use reliz_protocol.Tun.Session.Table.{same_flow_sound, get-insert_if, get-remove_if}
use reliz_protocol.Tun.Processor.{
  Segment, Processor, Effect, spawned, sent, key_of, handle_tcp, open_flow, passed, forward,
}
use reliz_protocol.Tun.Processor.Flow.{run}

-- The flow for which a channel was made, if it was.
abbrev pub Owners : Type 0
Owners = ℕ → Option FlowKey

abbrev owned : Owners → FlowKey → ℕ → Owners
owned own key c d = if c == d then some key else own d

abbrev after : Owners → List Effect → Owners
after own [] = own
after own (spawned key seq c ip port ∷ effects) = after (owned own key c) effects
after own (sent key c bytes ∷ effects) = after own effects

-- Each session gets a channel that no session had, and each message goes to its own flow's.
abbrev pub IsOwned : Owners → List Effect → Type 0
IsOwned own [] = Unit {0}
IsOwned own (spawned key seq c ip port ∷ effects) =
    (own c ≡ none) × IsOwned (owned own key c) effects
IsOwned own (sent key c bytes ∷ effects) = (own c ≡ some key) × IsOwned own effects

-- The table agrees with the owners, and the channels from the next number on are new.
pub record Agrees (own : Owners) (p : Processor) : Type 0 where
  pub listed : (key : FlowKey) (c : ℕ) → Session.get key p.nat ≡ some c → own c ≡ some key
  pub unused : (c : ℕ) → p.next_channel ≤ c → own c ≡ none

IsOwned-append :
    (own : Owners) (xs ys : List Effect)
    → IsOwned own xs
    → IsOwned (after own xs) ys
    → IsOwned own (xs ++ ys)
IsOwned-append own [] ys h k = k
IsOwned-append own (spawned key seq c ip port ∷ xs) ys h k =
    (h.0, IsOwned-append (owned own key c) xs ys h.1 k)
IsOwned-append own (sent key c bytes ∷ xs) ys h k = (h.0, IsOwned-append own xs ys h.1 k)

abbrev IsStep : Owners → Processor × List Effect → Type 0
IsStep own r = IsOwned own r.1 × Agrees (after own r.1) r.0

module _ (own : Owners) (p : Processor) (a : Agrees own p) where
  remove-Agrees : (key : FlowKey) → Agrees own (record p { nat = Session.remove key p.nat })
  remove-Agrees key = record { listed = λ k c e. a.listed k c (kept k c e); unused = a.unused }
    where
      kept :
          (k : FlowKey) (c : ℕ)
          → Session.get k (Session.remove key p.nat) ≡ some c
          → Session.get k p.nat ≡ some c
      kept k c e = ground (arith, get-remove_if key k p.nat)

  insert-Agrees :
      (key : FlowKey)
      → Agrees (owned own key p.next_channel) (record {
        nat = Session.insert key p.next_channel p.nat;
        next_channel = p.next_channel + 1;
      })
  insert-Agrees key = record { listed = kept; unused = λ c le. ground (arith, a.unused c) }
    where
      kept :
          (k : FlowKey) (c : ℕ)
          → Session.get k (Session.insert key p.next_channel p.nat) ≡ some c
          → owned own key p.next_channel c ≡ some k
      kept k c e = ground (
        arith,
        get-insert_if key k p.next_channel p.nat,
        same_flow_sound key k,
        a.listed k c,
        a.unused p.next_channel,
      )

  open_flow-IsStep :
      (key : FlowKey) (seg : Segment) (o : Option ℕ) → IsStep own (open_flow key seg o p)
  unfolding open_flow
  open_flow-IsStep key seg (some tx) = (tt, a)
  open_flow-IsStep key seg none =
      ((a.unused p.next_channel (le_self p.next_channel), tt), insert-Agrees key)
    where
      le_self : (n : ℕ) → n ≤ n
      le_self n = omega arith

  passed-IsStep :
      (key : FlowKey) (tx : ℕ) (bytes : List ℕ)
      → own tx ≡ some key
      → IsStep own (p, passed key tx bytes)
  unfolding passed
  passed-IsStep key tx [] e = (tt, a)
  passed-IsStep key tx (b ∷ bytes) e = ((e, tt), a)

  forward-IsStep :
      (key : FlowKey) (seg : Segment) (o : Option ℕ)
      → Session.get key p.nat ≡ o
      → IsStep own (forward key seg o p)
  unfolding forward
  forward-IsStep key seg none e = (tt, a)
  forward-IsStep key seg (some tx) e = elim (Bool-cases seg.header.fin) [
    | inl f ↦ rw f ((a.listed key tx e, tt), remove-Agrees key)
    | inr f ↦ rw f (passed-IsStep key tx seg.payload (a.listed key tx e))
  ]

  handle_tcp-IsStep : (seg : Segment) → IsStep own (handle_tcp seg p)
  unfolding handle_tcp key_of
  handle_tcp-IsStep seg = elim (Bool-cases seg.header.rst) [
    | inl r ↦ rw r (tt, remove-Agrees (key_of seg))
    | inr r ↦ elim (Bool-cases (seg.header.syn && not seg.header.ack)) [
      | inl s ↦ rw (r, s) (open_flow-IsStep (key_of seg) seg (Session.get (key_of seg) p.nat))
      | inr s ↦ rw (r, s) (forward-IsStep (key_of seg) seg (Session.get (key_of seg) p.nat) refl)
    ]
  ]

-- However the segments of all flows are mixed, a session gets a channel that no session before it
-- had, and what is sent to a channel comes from the flow of the session that the channel was made
-- for, from any table that agrees with its owners.
pub run-IsOwned :
    (segments : List Segment) (own : Owners) (p : Processor)
    → Agrees own p
    → IsOwned own (run segments p).1
unfolding run
run-IsOwned [] own p a = tt
run-IsOwned (seg ∷ segments) own p a =
    let (p1, effects) = handle_tcp seg p in
    let step = handle_tcp-IsStep own p a seg in
    IsOwned-append own effects (run segments p1).1 step.0
      (run-IsOwned segments (after own effects) p1 step.1)
