-- ===== src/Tun/Device.antt =====
-- `TunProcessor::run` of ghost-tun/src/lib.rs: the loop that reads the device, the task that writes
-- to it, and the channel between the sessions and that task.
pub mod Ending
pub mod Order
pub mod Drain
use reliz_protocol.Base.{
  ℕ, ◌+◌, ◌-◌, ◌<◌, ◌≡◌, List, [], ◌∷◌, ◌++◌, Bool, true, false, Option, none, some,
}
use reliz_protocol.Tun.Session
use reliz_protocol.Tun.Session.{Packet}
use reliz_protocol.Tun.Processor.{EtherParse, Processor, Effect, spawned, sent, process_packet}

-- `run` reads the device, waits for the writing task, or has returned.
pub data Phase : Type 0 where
  reading : Phase
  joining : Phase
  returned : Phase

-- The channel has the packets that are queued; its senders are that of `run` and the clones of the
-- sessions. `received` and `outgoing` are the packets that the device gave and that the sessions
-- sent so far, `written` those that the task took, each with whether the device took it.
pub record Running : Type 0 where
  pub phase : Phase
  pub processor : Processor
  pub effects : List Effect
  pub own_sender : Bool
  pub clones : ℕ
  pub queue : List Packet
  pub writer_ended : Bool
  pub received : List (List ℕ)
  pub outgoing : List Packet
  pub written : List (Packet × Bool)

-- `TunProcessor::new` and the beginning of `run`.
abbrev pub started : Running
started = record {
  phase = reading;
  processor = record { nat = Session.empty; next_channel = 0 };
  effects = [];
  own_sender = true;
  clones = 0;
  queue = [];
  writer_ended = false;
  received = [];
  outgoing = [];
  written = [];
}

unfoldable pub spawns : List Effect → ℕ
spawns [] = 0
spawns (spawned key seq tx ip port ∷ effects) = spawns effects + 1
spawns (sent key tx bytes ∷ effects) = spawns effects

module _ (parse : EtherParse) where
  processed : Option (Processor × List Effect) → Processor → Processor × List Effect
  processed none p = (p, [])
  processed (some r) p = r

  -- The call of `process_packet` in the loop: an error is only traced.
  unfoldable pub process : List ℕ → Processor → Processor × List Effect
  unfolding processed
  process bytes p = processed (process_packet parse bytes p) p

  -- A packet that was read; each session that it spawns has a clone of the sender.
  unfoldable pub read_packet : List ℕ → Running → Running
  read_packet bytes s =
      let (p, effects) = process bytes s.processor in
      record s {
        processor = p;
        effects = s.effects ++ effects;
        clones = s.clones + spawns effects;
        received = s.received ++ (bytes ∷ []);
      }

  -- The task takes a packet; a write that fails is only a warning.
  unfoldable pub write_packet : Packet → List Packet → Bool → Running → Running
  write_packet packet rest taken s = record s {
    queue = rest;
    written = s.written ++ ((packet, taken) ∷ []);
  }

  unfoldable pub send_packet : Packet → Running → Running
  send_packet packet s = record s {
    queue = s.queue ++ (packet ∷ []);
    outgoing = s.outgoing ++ (packet ∷ []);
  }

  -- `recv` gives `none` when the queue is empty and no sender is left. `run` drops its own sender
  -- with its other variables, when it returns.
  pub data Step (s : Running) (v : Running) : Type 0 where
    reads : (bytes : List ℕ) → s.phase ≡ reading → v ≡ read_packet bytes s → Step s v
    read_fails : s.phase ≡ reading → v ≡ s → Step s v
    closes : s.phase ≡ reading → v ≡ record s { phase = joining } → Step s v
    sends : (packet : Packet) → 0 < s.clones → v ≡ send_packet packet s → Step s v
    clones_sender : 0 < s.clones → v ≡ record s { clones = s.clones + 1 } → Step s v
    drops_sender : 0 < s.clones → v ≡ record s { clones = s.clones - 1 } → Step s v
    writes :
        (packet : Packet) (rest : List Packet) (taken : Bool)
        → s.queue ≡ packet ∷ rest
        → s.writer_ended ≡ false
        → v ≡ write_packet packet rest taken s
        → Step s v
    writer_ends :
        s.queue ≡ []
        → s.own_sender ≡ false
        → s.clones ≡ 0
        → v ≡ record s { writer_ended = true }
        → Step s v
    returns :
        s.phase ≡ joining
        → s.writer_ended ≡ true
        → v ≡ record s { phase = returned; own_sender = false }
        → Step s v

  pub data Reach (s : Running) : Running → Type 0 where
    here : Reach s s
    later : {v u : Running} → Reach s v → Step v u → Reach s u

  -- The packets that were read, one after the other.
  unfoldable pub process_all : List (List ℕ) → Processor → Processor × List Effect
  process_all [] p = (p, [])
  process_all (bytes ∷ rest) p =
      let (p1, effects) = process bytes p in
      let (p2, more) = process_all rest p1 in (p2, effects ++ more)
