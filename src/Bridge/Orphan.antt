-- ===== src/Bridge/Orphan.antt =====
-- What `abort` leaves of a task that has come back but has not cleared the flag.
use reliz_protocol.Base.{ℕ, ◌+◌, ◌≡◌, refl, ap, ◌∙◌, true, false, arith, some}
use reliz_protocol.Bridge.{
  Bridge, Reach, here, later, begins, binds, comes_back, fails_to_bind, reports, clears, starts,
  stops, returns, spawned, binding, serving, ended, reported, gone, is_resolved, connecting, put,
  idle, waiting, start_reliz_proxy, stop_proxy, finish_start, begin_task, signal, come_back, report,
  clear,
}

at_put : {A : Type 0} (i : ℕ) (x : A) (f : ℕ → A) → put i x f i ≡ x
at_put i x f = ground arith

above_put : {A : Type 0} (i : ℕ) (x : A) (f : ℕ → A) → put i x f (i + 1) ≡ f (i + 1)
above_put i x f = ground arith

below_put : {A : Type 0} (i : ℕ) (x : A) (f : ℕ → A) → put (i + 1) x f i ≡ f i
below_put i x f = ground arith

-- A start when no proxy runs.
abbrev newly_started : Bridge → Bridge
newly_started b = record b {
  status = connecting;
  task = some b.next_task;
  phases = put b.next_task spawned b.phases;
  next_task = b.next_task + 1;
  caller = waiting b.next_task;
}

starts-Reach :
    {b v : Bridge} → Reach b v → v.caller ≡ idle → v.running ≡ false → Reach b (newly_started v)
unfolding start_reliz_proxy
starts-Reach {v = v} path is_idle off =
    let same : newly_started v ≡ start_reliz_proxy v = simp off refl in
    later path (starts is_idle same)

-- A task that binds at once, up to the return of the call.
abbrev connected_by : Bridge → Bridge
connected_by b = finish_start true (signal b.next_task (begin_task b.next_task (newly_started b)))

connects-Reach :
    {b v : Bridge} → Reach b v → v.caller ≡ idle → v.running ≡ false → Reach b (connected_by v)
unfolding begin_task signal
connects-Reach {v = v} path is_idle off =
    let n = v.next_task in
    let p1 = starts-Reach path is_idle off in
    let p2 = later p1 (begins n (at_put n spawned v.phases) refl) in
    let p3 = later p2 (binds n (at_put n binding (newly_started v).phases) refl) in
    later p3 (
      returns n refl (ap is_resolved (at_put n serving (begin_task n (newly_started v)).phases))
        refl)

-- The task that was started has come back and reported, and is stopped before it clears the flag.
abbrev stopped_late : Bridge → Bridge
stopped_late b = stop_proxy (report b.next_task true (come_back b.next_task true (connected_by b)))

stops_late-Reach : (b : Bridge) → b.caller ≡ idle → b.running ≡ false → Reach b (stopped_late b)
unfolding begin_task signal come_back report finish_start
stops_late-Reach b is_idle off =
    let n = b.next_task in
    let b1 = connected_by b in
    let p1 = connects-Reach here is_idle off in
    let p2 =
      later p1
        (comes_back n true (at_put n serving (begin_task n (newly_started b)).phases) refl) in
    let p3 = later p2 (reports n true (at_put n (ended true) b1.phases) refl) in
    later p3 (stops refl refl)

-- The next task begins, the stopped one clears the flag, and the next binds.
abbrev next_serves : Bridge → ℕ → Bridge
next_serves b n =
    finish_start true (signal b.next_task (clear n (begin_task b.next_task (newly_started b))))

-- Another start, whose task cannot bind.
abbrev third_fails : Bridge → Bridge
third_fails b =
    finish_start true (come_back b.next_task false (begin_task b.next_task (newly_started b)))

third_fails-Reach :
    {b v : Bridge} → Reach b v → v.caller ≡ idle → v.running ≡ false → Reach b (third_fails v)
unfolding begin_task come_back
third_fails-Reach {v = v} path is_idle off =
    let n = v.next_task in
    let p1 = starts-Reach path is_idle off in
    let p2 = later p1 (begins n (at_put n spawned v.phases) refl) in
    let p3 = later p2 (fails_to_bind n (at_put n binding (newly_started v).phases) refl) in
    later p3 (
      returns n refl
        (ap is_resolved (at_put n (ended false) (begin_task n (newly_started v)).phases)) refl)

-- A stop does not undo what a task has still to do. From each idle state in which no proxy runs and
-- the second task to come is not aborted yet, this can happen: a task comes back and is stopped before it has
-- cleared the flag, a second task is started and begins, the first then clears the flag, so a
-- third is started in place of the second. The second serves, was never aborted, and a further
-- stop does not abort it.
pub second_proxy_lem :
    (b : Bridge)
    → b.caller ≡ idle
    → b.running ≡ false
    → b.aborted (b.next_task + 1) ≡ false
    → (v : Bridge) × Reach b v
      × (v.caller ≡ idle)
      × (v.phases (b.next_task + 1) ≡ serving)
      × (v.aborted (b.next_task + 1) ≡ false)
      × ((stop_proxy v).aborted (b.next_task + 1) ≡ false)
unfolding start_reliz_proxy begin_task signal come_back report clear finish_start stop_proxy
second_proxy_lem b is_idle off kept =
    let n = b.next_task in
    let b1 = stopped_late b in
    let b2 = newly_started b1 in
    let b3 = begin_task (n + 1) b2 in
    let b4 = clear n b3 in
    let b5 = next_serves b1 n in
    let b6 = third_fails b5 in
    let p1 = stops_late-Reach b is_idle off in
    let p2 = starts-Reach p1 refl refl in
    let p3 : Reach b b3 = later p2 (begins (n + 1) (at_put (n + 1) spawned b1.phases) refl) in
    let waits : b3.phases n ≡ reported =
      below_put n binding b2.phases
      ∙ below_put n spawned b1.phases
      ∙ at_put n reported (come_back n true (connected_by b)).phases in
    let p4 : Reach b b4 = later p3 (clears n waits refl) in
    let binds_now : b4.phases (n + 1) ≡ binding =
      above_put n gone b3.phases ∙ at_put (n + 1) binding b2.phases in
    let p5 = later p4 (binds (n + 1) binds_now refl) in
    let serves : b5.phases (n + 1) ≡ serving = at_put (n + 1) serving b4.phases in
    let p6 : Reach b b5 = later p5 (returns (n + 1) refl (ap is_resolved serves) refl) in
    let p7 : Reach b b6 = third_fails-Reach p6 refl refl in
    let alone : b6.aborted (n + 1) ≡ false = above_put n true b.aborted ∙ kept in
    (
      b6,
      p7,
      refl,
      below_put (n + 1) (ended false) (begin_task (n + 1 + 1) (newly_started b5)).phases
          ∙ below_put (n + 1) binding (newly_started b5).phases
          ∙ below_put (n + 1) spawned b5.phases
          ∙ serves,
      alone,
      below_put (n + 1) true b6.aborted ∙ alone,
    )
