-- ===== src/Bridge.antt =====
-- `start_reliz_proxy` and `stop_proxy` of ghost_flutter/rust/src/api.rs, called from one thread,
-- with the background tasks that `start_reliz_proxy` spawns.
pub mod Honesty
pub mod Orphan
pub mod Tun
use reliz_protocol.Base.{
  ℕ, ◌+◌, ◌≡◌, Bool, true, false, ◌&&◌, Option, none, some, ◌==◌, if◌then◌else◌,
}

pub data ProxyStatus : Type 0 where
  stopped : ProxyStatus
  connecting : ProxyStatus
  connected : ProxyStatus
  error : ProxyStatus

-- How far a task has come: spawned, in `run_with_ready` before and behind the signal, back from
-- it with a success or an error, behind the change of the status, and gone.
pub data Phase : Type 0 where
  absent : Phase
  spawned : Phase
  binding : Phase
  serving : Phase
  ended : Bool → Phase
  reported : Phase
  gone : Phase

-- Whether the caller waits for a task's signal.
pub data Caller : Type 0 where
  idle : Caller
  waiting : ℕ → Caller

-- The statics of the bridge, the tasks by number, and which of them have bound the listener and
-- signalled it, and which were aborted.
pub record Bridge : Type 0 where
  pub status : ProxyStatus
  pub running : Bool
  pub task : Option ℕ
  pub phases : ℕ → Phase
  pub signalled : ℕ → Bool
  pub aborted : ℕ → Bool
  pub next_task : ℕ
  pub caller : Caller

abbrev pub put : {A : Type 0} → ℕ → A → (ℕ → A) → ℕ → A
put i x f j = if i == j then x else f j

-- The idle bridge of a new process.
abbrev pub launched : Bridge
launched = record {
  status = stopped;
  running = false;
  task = none;
  phases = λ i. absent;
  signalled = λ i. false;
  aborted = λ i. false;
  next_task = 0;
  caller = idle;
}

-- What a task does.
unfoldable pub begin_task : ℕ → Bridge → Bridge
begin_task i b = record b { running = true; phases = put i binding b.phases }

pub signal : ℕ → Bridge → Bridge
signal i b = record b { phases = put i serving b.phases; signalled = put i true b.signalled }

pub come_back : ℕ → Bool → Bridge → Bridge
come_back i success b = record b { phases = put i (ended success) b.phases }

abbrev result_status : Bool → ProxyStatus
result_status true = stopped
result_status false = error

pub report : ℕ → Bool → Bridge → Bridge
report i success b = record b { status = result_status success; phases = put i reported b.phases }

pub clear : ℕ → Bridge → Bridge
clear i b = record b { running = false; phases = put i gone b.phases }

-- `start_reliz_proxy` up to the wait, when no proxy runs; when one runs it returns 0 at once.
unfoldable pub start_reliz_proxy : Bridge → Bridge
start_reliz_proxy b = if b.running then b else record b {
  status = connecting;
  task = some b.next_task;
  phases = put b.next_task spawned b.phases;
  next_task = b.next_task + 1;
  caller = waiting b.next_task;
}

abort_task : Option ℕ → (ℕ → Bool) → ℕ → Bool
abort_task none aborted = aborted
abort_task (some i) aborted = put i true aborted

unfoldable pub stop_proxy : Bridge → Bridge
unfolding abort_task
stop_proxy b = record b {
  status = stopped;
  running = false;
  task = none;
  aborted = abort_task b.task b.aborted;
}

-- `start_reliz_proxy` behind the wait: with `true` it returns 0, and with `false` the error.
unfoldable pub finish_start : Bool → Bridge → Bridge
unfolding stop_proxy
finish_start true b = record b { status = connected; caller = idle }
finish_start false b = record (stop_proxy b) { status = error; caller = idle }

abbrev pub is_live : Phase → Bool
is_live absent = false
is_live gone = false
is_live _ = true

-- The sender of the signal has sent it or is dropped.
abbrev pub is_resolved : Phase → Bool
is_resolved absent = false
is_resolved spawned = false
is_resolved binding = false
is_resolved _ = true

-- A task that was aborted dies at its next wait, and may run on until then.
pub data Step (b : Bridge) (v : Bridge) : Type 0 where
  begins : (i : ℕ) → b.phases i ≡ spawned → v ≡ begin_task i b → Step b v
  binds : (i : ℕ) → b.phases i ≡ binding → v ≡ signal i b → Step b v
  fails_to_bind : (i : ℕ) → b.phases i ≡ binding → v ≡ come_back i false b → Step b v
  comes_back :
      (i : ℕ) (success : Bool) → b.phases i ≡ serving → v ≡ come_back i success b → Step b v
  reports :
      (i : ℕ) (success : Bool) → b.phases i ≡ ended success → v ≡ report i success b → Step b v
  clears : (i : ℕ) → b.phases i ≡ reported → v ≡ clear i b → Step b v
  dies : (i : ℕ) → b.aborted i ≡ true → v ≡ record b { phases = put i gone b.phases } → Step b v
  starts : b.caller ≡ idle → v ≡ start_reliz_proxy b → Step b v
  returns :
      (i : ℕ)
      → b.caller ≡ waiting i
      → is_resolved (b.phases i) ≡ true
      → v ≡ finish_start true b
      → Step b v
  times_out :
      (i : ℕ)
      → b.caller ≡ waiting i
      → is_resolved (b.phases i) ≡ false
      → v ≡ finish_start false b
      → Step b v
  stops : b.caller ≡ idle → v ≡ stop_proxy b → Step b v

pub data Reach (b : Bridge) : Bridge → Type 0 where
  here : Reach b b
  later : {v u : Bridge} → Reach b v → Step v u → Reach b u
