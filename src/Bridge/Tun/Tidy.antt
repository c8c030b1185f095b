-- ===== src/Bridge/Tun/Tidy.antt =====
-- Starts and stops of the TUN device that take turns.
use reliz_protocol.Base.{
  ℕ, ◌+◌, ◌<◌, ◌≡◌, ◌⊎◌, ap, sym, List, [], ◌∷◌, Bool, true, false, Option, none, some, refl, ◌==◌,
  ==_iff, Bool-cases, inl, inr, arith,
}
use reliz_protocol.Bridge.{abort_task}
use reliz_protocol.Bridge.Tun.{
  pos, negsuc, TunBridge, launched, start_tun, stop_tun, Call, start, stop, call, calls,
}

abbrev is_held : Option ℕ → Bool
is_held none = false
is_held (some i) = true

-- No start with a descriptor that is not negative comes while a task is held.
abbrev pub IsTidy : List Call → Bool → Type 0
IsTidy [] held = Unit {0}
IsTidy (start (negsuc n) ∷ cs) held = IsTidy cs held
IsTidy (start (pos n) ∷ cs) held = (held ≡ false) × IsTidy cs true
IsTidy (stop ∷ cs) held = IsTidy cs false

-- Every task that was spawned is held or was aborted.
abbrev Kept : TunBridge → Type 0
Kept b = (i : ℕ) → i < b.next_task → (b.tun_task ≡ some i) ⊎ (b.aborted i ≡ true)

abort_task-true :
    (o : Option ℕ) (aborted : ℕ → Bool) (i : ℕ)
    → (o ≡ some i) ⊎ (aborted i ≡ true)
    → abort_task o aborted i ≡ true
unfolding abort_task
abort_task-true none aborted i (inl e) = cc e
abort_task-true none aborted i (inr e) = e
abort_task-true (some j) aborted i (inl e) = rw ((==_iff j i).1 (cc e)) refl
abort_task-true (some j) aborted i (inr e) = ground arith

before : (i n : ℕ) → i < n + 1 → (i == n) ≡ false → i < n
before i n h e = ground arith

aborted_of :
    (o : Option ℕ) (x : Bool) (i : ℕ) → is_held o ≡ false → (o ≡ some i) ⊎ (x ≡ true) → x ≡ true
aborted_of none x i free (inl e) = cc e
aborted_of (some j) x i free (inl e) = cc free
aborted_of o x i free (inr e) = e

start-Kept :
    (b : TunBridge) (n : ℕ) → is_held b.tun_task ≡ false → Kept b → Kept (start_tun (pos n) b).1
unfolding start_tun
start-Kept b n free kept i h = elim (Bool-cases (i == b.next_task)) [
  | inl e ↦ inl (ap some (sym ((==_iff i b.next_task).0 e)))
  | inr e ↦ inr (aborted_of b.tun_task (b.aborted i) i free (kept i (before i b.next_task h e)))
]

calls-Kept :
    (cs : List Call) (b : TunBridge) → IsTidy cs (is_held b.tun_task) → Kept b → Kept (calls cs b)
unfolding calls call start_tun stop_tun
calls-Kept [] b tidy kept = kept
calls-Kept (start (negsuc n) ∷ cs) b tidy kept = calls-Kept cs b tidy kept
calls-Kept (start (pos n) ∷ cs) b tidy kept = calls-Kept cs _ tidy.1 (start-Kept b n tidy.0 kept)
calls-Kept (stop ∷ cs) b tidy kept =
    calls-Kept cs _ tidy (λ i h. inr (abort_task-true b.tun_task b.aborted i (kept i h)))

-- A stop reaches every task, when starts and stops take turns: after calls in which no start with
-- a descriptor that is not negative came while a task was held, `stop_tun` leaves every task that
-- was ever spawned aborted.
pub stop_tun-reaches :
    (cs : List Call)
    → IsTidy cs false
    → (i : ℕ) → i < (calls cs launched).next_task
    → (stop_tun (calls cs launched)).1.aborted i ≡ true
unfolding stop_tun
stop_tun-reaches cs tidy i h =
    let b = calls cs launched in
    abort_task-true b.tun_task b.aborted i
      (calls-Kept cs launched tidy (λ j k. absurd (omega arith)) i h)
