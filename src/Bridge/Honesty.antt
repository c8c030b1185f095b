-- ===== src/Bridge/Honesty.antt =====
-- What `start_reliz_proxy` tells its caller.
use reliz_protocol.Base.{ℕ, ◌+◌, ◌≡◌, refl, ap, true, false, arith, some}
use reliz_protocol.Bridge.{
  Bridge, Reach, here, later, begins, fails_to_bind, reports, clears, starts, returns, binding,
  ended, reported, is_resolved, spawned, connecting, put, connected, gone, idle, waiting,
  start_reliz_proxy, finish_start, begin_task, come_back, report, clear,
}

put_here : {A : Type 0} (i : ℕ) (x : A) (f : ℕ → A) → put i x f i ≡ x
put_here i x f = ground arith

-- From each idle state in which no proxy runs and the next task is new, a call can lead back to an
-- idle caller with the status `connected` although its task has not bound the listener, was not
-- aborted and is gone, and nothing runs: the wait also ends well when the sender of the signal is dropped.
pub failed_bind_lem :
    (b : Bridge)
    → b.caller ≡ idle
    → b.running ≡ false
    → b.aborted b.next_task ≡ false
    → b.signalled b.next_task ≡ false
    → (v : Bridge) × Reach b v
      × (v.caller ≡ idle)
      × (v.status ≡ connected)
      × (v.signalled b.next_task ≡ false)
      × (v.aborted b.next_task ≡ false)
      × (v.phases b.next_task ≡ gone)
      × (v.running ≡ false)
unfolding start_reliz_proxy begin_task come_back report clear finish_start
failed_bind_lem b is_idle not_running kept silent =
    let n = b.next_task in
    let b1 : Bridge = record b {
      status = connecting;
      task = some n;
      phases = put n spawned b.phases;
      next_task = n + 1;
      caller = waiting n;
    } in
    let started : b1 ≡ start_reliz_proxy b = simp not_running refl in
    let b2 = begin_task n b1 in
    let b3 = come_back n false b2 in
    let b4 = report n false b3 in
    let b5 = clear n b4 in
    let p1 : Reach b b1 = later here (starts is_idle started) in
    let p2 : Reach b b2 = later p1 (begins n (put_here n spawned b.phases) refl) in
    let p3 : Reach b b3 = later p2 (fails_to_bind n (put_here n binding b1.phases) refl) in
    let p4 : Reach b b4 = later p3 (reports n false (put_here n (ended false) b2.phases) refl) in
    let p5 : Reach b b5 = later p4 (clears n (put_here n reported b3.phases) refl) in
    (
      finish_start true b5,
      later p5 (returns n refl (ap is_resolved (put_here n gone b4.phases)) refl),
      refl,
      refl,
      silent,
      kept,
      put_here n gone b4.phases,
      refl,
    )
