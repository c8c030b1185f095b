-- ===== src/Bridge/Tun/Lost.antt =====
-- A task of the TUN device that no call stops.
use reliz_protocol.Base.{
  ℕ, ◌<◌, ◌≡◌, ◌≢◌, ap, List, [], ◌∷◌, Bool, true, false, Option, none, some, refl, ◌==◌, ==_iff,
  Bool-cases, inl, inr, arith,
}
use reliz_protocol.Bridge.{abort_task}
use reliz_protocol.Bridge.Tun.{
  pos, negsuc, TunBridge, launched, start_tun, stop_tun, Call, start, stop, call, calls,
}

-- The tasks that the bridge has spawned are known by smaller numbers than the next, and those
-- that come are not aborted.
record IsNew (b : TunBridge) : Type 0 where
  held : (i : ℕ) → b.tun_task ≡ some i → i < b.next_task
  fresh : (i : ℕ) → b.aborted i ≡ true → i < b.next_task

-- A task that lives and that the bridge has no handle of.
pub record IsForgotten (i : ℕ) (b : TunBridge) : Type 0 where
  pub spawned : i < b.next_task
  pub unheld : b.tun_task ≢ some i
  pub alive : b.aborted i ≡ false

launched-IsNew : IsNew launched
launched-IsNew = record { held = λ i e. cc e; fresh = λ i e. cc e }

abort_task-fresh :
    (o : Option ℕ) (n : ℕ) (aborted : ℕ → Bool)
    → ((i : ℕ) → o ≡ some i → i < n)
    → ((i : ℕ) → aborted i ≡ true → i < n)
    → (i : ℕ) → abort_task o aborted i ≡ true
    → i < n
unfolding abort_task
abort_task-fresh none n aborted held fresh i e = fresh i e
abort_task-fresh (some j) n aborted held fresh i e = ground (arith, held j refl, fresh i)

abort_task-unheld :
    (o : Option ℕ) (aborted : ℕ → Bool) (i : ℕ)
    → o ≢ some i
    → aborted i ≡ false
    → abort_task o aborted i ≡ false
unfolding abort_task
abort_task-unheld none aborted i other e = e
abort_task-unheld (some j) aborted i other e = elim (Bool-cases (j == i)) [
  | inl h ↦ absurd (other (ap some ((==_iff j i).0 h)))
  | inr h ↦ rw h e
]

some-inj : {i j : ℕ} → some i ≡ some j → i ≡ j
some-inj e = cc e

call-IsNew : (c : Call) (b : TunBridge) → IsNew b → IsNew (call c b).1
unfolding call start_tun stop_tun
call-IsNew (start (negsuc n)) b h = h
call-IsNew (start (pos n)) b h = record {
  held = λ i e. omega (arith, some-inj e);
  fresh = λ i e. omega (arith, h.fresh i e);
}
call-IsNew stop b h = record {
  held = λ i e. cc e;
  fresh = abort_task-fresh b.tun_task b.next_task b.aborted h.held h.fresh;
}

calls-IsNew : (cs : List Call) (b : TunBridge) → IsNew b → IsNew (calls cs b)
unfolding calls
calls-IsNew [] b h = h
calls-IsNew (c ∷ cs) b h = calls-IsNew cs (call c b).1 (call-IsNew c b h)

call-IsForgotten : (c : Call) (i : ℕ) (b : TunBridge) → IsForgotten i b → IsForgotten i (call c b).1
unfolding call start_tun stop_tun
call-IsForgotten (start (negsuc n)) i b h = h
call-IsForgotten (start (pos n)) i b h = record {
  spawned = omega (arith, h.spawned);
  unheld = λ e. omega (arith, some-inj e, h.spawned);
  alive = h.alive;
}
call-IsForgotten stop i b h = record {
  spawned = h.spawned;
  unheld = λ e. cc e;
  alive = abort_task-unheld b.tun_task b.aborted i h.unheld h.alive;
}

calls-IsForgotten :
    (cs : List Call) (i : ℕ) (b : TunBridge) → IsForgotten i b → IsForgotten i (calls cs b)
unfolding calls
calls-IsForgotten [] i b h = h
calls-IsForgotten (c ∷ cs) i b h = calls-IsForgotten cs i (call c b).1 (call-IsForgotten c i b h)

not_true : (x : Bool) → x ≢ true → x ≡ false
not_true true h = absurd (h refl)
not_true false h = refl

-- A second start leaves a task that no call stops. Whatever calls came before, when `start_tun`
-- is called twice with descriptors that are not negative and no stop between, the task of the
-- first call is not aborted by then, and no later sequence of calls aborts it.
pub second_start_lem :
    (before after : List Call) (first second : ℕ)
    → let b = calls before launched in
      IsForgotten b.next_task (calls after (start_tun (pos second) (start_tun (pos first) b).1).1)
unfolding start_tun
second_start_lem before after first second =
    let b = calls before launched in
    let new = calls-IsNew before launched launched-IsNew in
    calls-IsForgotten after b.next_task _ (record {
      spawned = omega arith;
      unheld = λ e. omega (arith, some-inj e);
      alive = not_true (b.aborted b.next_task) (λ e. omega (arith, new.fresh b.next_task e));
    })
