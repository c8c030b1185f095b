-- ===== src/Bridge/Tun.antt =====
-- `start_tun` and `stop_tun` of ghost_flutter/rust/src/api.rs, and their C names, called from one
-- thread: which of the tasks that were spawned are aborted.
pub mod Lost
pub mod Tidy
use reliz_protocol.Base.{
  ℕ, ◌+◌, ◌<◌, ◌≡◌, ◌≢◌, refl, sym, subst, ap, ◌∙◌, List, [], ◌∷◌, ◌++◌, Bool, true, false, Option,
  none, some, ◌==◌, if◌then◌else◌, Bool-cases, inl, inr, ==_iff, arith,
}
use reliz_protocol.Bridge.{put, abort_task}

-- An `i32`: a number, or one more than it below zero.
pub data ℤ : Type 0 where
  pos : ℕ → ℤ
  negsuc : ℕ → ℤ

-- `TUN_TASK`, the tasks by number, and which of them were aborted.
pub record TunBridge : Type 0 where
  pub tun_task : Option ℕ
  pub next_task : ℕ
  pub aborted : ℕ → Bool

abbrev pub launched : TunBridge
launched = record { tun_task = none; next_task = 0; aborted = λ i. false }

-- The result, and the state; a task is spawned also when there is one. A handle that is replaced
-- is dropped, which does not abort its task.
unfoldable pub start_tun : ℤ → TunBridge → ℤ × TunBridge
start_tun (negsuc n) b = (negsuc 0, b)
start_tun (pos tun_fd) b =
    (pos 0, record b { tun_task = some b.next_task; next_task = b.next_task + 1 })

unfoldable pub stop_tun : TunBridge → ℤ × TunBridge
unfolding abort_task
stop_tun b = (pos 0, record b { tun_task = none; aborted = abort_task b.tun_task b.aborted })

pub data Call : Type 0 where
  start : ℤ → Call
  stop : Call

-- `ghost_tun_start` and `ghost_tun_stop`
unfoldable pub call : Call → TunBridge → ℤ × TunBridge
call (start tun_fd) b = start_tun tun_fd b
call stop b = stop_tun b

unfoldable pub calls : List Call → TunBridge → TunBridge
calls [] b = b
calls (c ∷ rest) b = calls rest (call c b).1
