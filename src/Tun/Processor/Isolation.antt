-- ===== src/Tun/Processor/Isolation.antt =====
-- The processor implements each flow by itself.
use reliz_protocol.Base.{
  ℕ, List, [], ◌∷◌, ◌++◌, ◌≡◌, refl, ap, subst, sym, ◌∙◌, Bool, true, false, Bool-cases, inl, inr,
  Option, none, some, arith, if◌then◌else◌,
}
use reliz_protocol.Tun.Session
use reliz_protocol.Tun.Session.{FlowKey, same_flow}
use reliz_protocol.Tun.Session.Table.{same_flow_refl, same_flow_sound, get-insert_if, get-remove_if}
use reliz_protocol.Tun.Processor.{Segment, Processor, Effect, spawned, sent, key_of, handle_tcp}
use reliz_protocol.Tun.Processor.Flow.{Event, flow_step, flow_run, only, seen_by, run}

abbrev pub is_some : Option ℕ → Bool
is_some none = false
is_some (some tx) = true

abbrev pub is_open : FlowKey → Processor → Bool
is_open key p = is_some (Session.get key p.nat)

seen_by-append :
    (key : FlowKey) (xs ys : List Effect)
    → seen_by key (xs ++ ys) ≡ seen_by key xs ++ seen_by key ys
unfolding seen_by
seen_by-append key [] ys = refl
seen_by-append key (spawned k seq tx ip port ∷ xs) ys = ground (arith, seen_by-append key xs ys)
seen_by-append key (sent k tx bytes ∷ xs) ys = ground (arith, seen_by-append key xs ys)

-- A segment of the flow moves it as the flow's own machine does.
own_step :
    (seg : Segment) (p : Processor)
    → let r = handle_tcp seg p in
      let f = flow_step seg (is_open (key_of seg) p) in
      (is_open (key_of seg) r.0 ≡ f.0) × (seen_by (key_of seg) r.1 ≡ f.1)
unfolding handle_tcp seen_by
own_step seg p = ground (
  arith,
  get-insert_if (key_of seg) (key_of seg) p.next_channel p.nat,
  get-remove_if (key_of seg) (key_of seg) p.nat,
  same_flow_refl (key_of seg),
)

-- A segment of another flow leaves it alone.
other_step :
    (seg : Segment) (key : FlowKey) (p : Processor)
    → same_flow (key_of seg) key ≡ false
    → let r = handle_tcp seg p in (is_open key r.0 ≡ is_open key p) × (seen_by key r.1 ≡ [])
unfolding handle_tcp seen_by
other_step seg key p h = ground (
  arith,
  get-insert_if (key_of seg) key p.next_channel p.nat,
  get-remove_if (key_of seg) key p.nat,
)

-- The machine of one flow on one segment of all.
abbrev one_step : Segment → FlowKey → Bool → Bool × List Event
one_step seg key is_open =
    if same_flow (key_of seg) key then flow_step seg is_open else (is_open, [])

step-flow_step :
    (seg : Segment) (key : FlowKey) (p : Processor)
    → let r = handle_tcp seg p in
      let f = one_step seg key (is_open key p) in (is_open key r.0 ≡ f.0) × (seen_by key r.1 ≡ f.1)
step-flow_step seg key p = elim (Bool-cases (same_flow (key_of seg) key)) [
  | inl e ↦ rw e (
      subst
        (λ k.
          let f = flow_step seg (is_open k p) in
          (is_open k (handle_tcp seg p).0 ≡ f.0) × (seen_by k (handle_tcp seg p).1 ≡ f.1))
        (same_flow_sound (key_of seg) key e) (own_step seg p))
  | inr e ↦ rw e (other_step seg key p e)
]

flow_run-only :
    (seg : Segment) (segments : List Segment) (key : FlowKey) (is_open : Bool)
    → let f = one_step seg key is_open in
      let more = flow_run (only key segments) f.0 in
      flow_run (only key (seg ∷ segments)) is_open ≡ (more.0, f.1 ++ more.1)
unfolding flow_run only
flow_run-only seg segments key is_open = elim (Bool-cases (same_flow (key_of seg) key)) [
  | inl e ↦ rw e refl
  | inr e ↦ rw e refl
]

-- Whatever segments arrive, in whatever order and of however many flows, the session of each flow
-- sees just what the flow's own machine gives on the flow's own segments, and is open afterwards
-- when the machine says so.
pub run-flow_run :
    (segments : List Segment) (key : FlowKey) (p : Processor)
    → let r = run segments p in
      let f = flow_run (only key segments) (is_open key p) in
      (is_open key r.0 ≡ f.0) × (seen_by key r.1 ≡ f.1)
unfolding run
run-flow_run [] key p = unfold flow_run only seen_by in (refl, refl)
run-flow_run (seg ∷ segments) key p =
    let r = handle_tcp seg p in
    let step = step-flow_step seg key p in
    let ih = run-flow_run segments key r.0 in
    let e = flow_run-only seg segments key (is_open key p) in
    (
      ih.0 ∙ ap (λ o. (flow_run (only key segments) o).0) step.0 ∙ sym (ap (λ t. t.0) e),
      seen_by-append key r.1 (run segments r.0).1
          ∙ ap (λ t. seen_by key r.1 ++ t)
              (ih.1 ∙ ap (λ o. (flow_run (only key segments) o).1) step.0)
          ∙ ap (λ t. t ++ (flow_run (only key segments) (one_step seg key (is_open key p)).0).1)
              step.1
          ∙ sym (ap (λ t. t.1) e),
    )
