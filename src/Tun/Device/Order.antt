-- ===== src/Tun/Device/Order.antt =====
-- What `run` makes of the packets that it read, and of those that the sessions sent.
use reliz_protocol.Base.{
  ℕ, ◌≡◌, refl, sym, ap, subst, ◌∙◌, List, [], ◌∷◌, ◌++◌, append_assoc, append-nil, Bool,
}
use mathlib.Core.Path.{ap₂}
use reliz_protocol.Tun.Session.{Packet}
use reliz_protocol.Tun.Processor.{EtherParse, Processor}
use reliz_protocol.Tun.Device.{
  Running, started, process, process_all, read_packet, write_packet, send_packet, Step, reads,
  read_fails, closes, sends, clones_sender, drops_sender, writes, writer_ends, returns, Reach, here,
  later,
}

-- The packets that the writing task took.
abbrev pub taken_packets : List (Packet × Bool) → List Packet
taken_packets [] = []
taken_packets ((packet, taken) ∷ rest) = packet ∷ taken_packets rest

pub taken-append :
    (xs ys : List (Packet × Bool)) → taken_packets (xs ++ ys) ≡ taken_packets xs ++ taken_packets ys
taken-append [] ys = refl
taken-append ((packet, taken) ∷ xs) ys = ap (λ t. packet ∷ t) (taken-append xs ys)

module _ (parse : EtherParse) where
  process_all-append :
      (xs : List (List ℕ)) (bytes : List ℕ) (p : Processor)
      → process_all parse (xs ++ (bytes ∷ [])) p ≡ (
        (process parse bytes (process_all parse xs p).0).0,
        (process_all parse xs p).1 ++ (process parse bytes (process_all parse xs p).0).1,
      )
  unfolding process_all
  process_all-append [] bytes p =
      ap (λ t. ((process parse bytes p).0, t)) (append-nil (process parse bytes p).1)
  process_all-append (x ∷ xs) bytes p =
      let (p1, effects) = process parse x p in
      let before = process_all parse xs p1 in
      ap (λ t. (t.0, effects ++ t.1)) (process_all-append xs bytes p1)
      ∙ ap (λ t. ((process parse bytes before.0).0, t))
          (sym (append_assoc effects before.1 (process parse bytes before.0).1))

  -- The table and the effects are those of the packets that were read, one after the other; and
  -- the packets that the sessions sent are those that the task took, in order, and those that
  -- wait in the channel.
  pub record IsOrdered (s : Running) : Type 0 where
    pub table : s.processor ≡ (process_all parse s.received started.processor).0
    pub effects_made : s.effects ≡ (process_all parse s.received started.processor).1
    pub forwarded : s.outgoing ≡ taken_packets s.written ++ s.queue

  started-IsOrdered : IsOrdered started
  unfolding process_all
  started-IsOrdered = record { table = refl; effects_made = refl; forwarded = refl }

  -- A step that neither reads a packet nor moves one in the channel.
  same-IsOrdered :
      (s v : Running)
      → v.processor ≡ s.processor
      → v.effects ≡ s.effects
      → v.received ≡ s.received
      → v.outgoing ≡ s.outgoing
      → v.written ≡ s.written
      → v.queue ≡ s.queue
      → IsOrdered s
      → IsOrdered v
  same-IsOrdered s v p e r o w q i = record {
    table = p ∙ i.table ∙ ap (λ t. (process_all parse t started.processor).0) (sym r);
    effects_made = e ∙ i.effects_made ∙ ap (λ t. (process_all parse t started.processor).1) (sym r);
    forwarded = o ∙ i.forwarded ∙ ap₂ (λ x y. taken_packets x ++ y) (sym w) (sym q);
  }

  reads-IsOrdered :
      (bytes : List ℕ) (s : Running) → IsOrdered s → IsOrdered (read_packet parse bytes s)
  unfolding read_packet
  reads-IsOrdered bytes s i = record {
    table =
        ap (λ t. (process parse bytes t).0) i.table
        ∙ ap (λ t. t.0) (sym (process_all-append s.received bytes started.processor));
    effects_made =
        ap₂ (λ x y. x ++ (process parse bytes y).1) i.effects_made i.table
        ∙ ap (λ t. t.1) (sym (process_all-append s.received bytes started.processor));
    forwarded = i.forwarded;
  }

  sends-IsOrdered :
      (packet : Packet) (s : Running) → IsOrdered s → IsOrdered (send_packet parse packet s)
  unfolding send_packet
  sends-IsOrdered packet s i = record {
    table = i.table;
    effects_made = i.effects_made;
    forwarded =
        ap (λ t. t ++ (packet ∷ [])) i.forwarded
        ∙ append_assoc (taken_packets s.written) s.queue (packet ∷ []);
  }

  writes-IsOrdered :
      (packet : Packet) (rest : List Packet) (taken : Bool) (s : Running)
      → s.queue ≡ packet ∷ rest
      → IsOrdered s
      → IsOrdered (write_packet parse packet rest taken s)
  unfolding write_packet
  writes-IsOrdered packet rest taken s q i = record {
    table = i.table;
    effects_made = i.effects_made;
    forwarded =
        i.forwarded
        ∙ ap (λ t. taken_packets s.written ++ t) q
        ∙ sym (append_assoc (taken_packets s.written) (packet ∷ []) rest)
        ∙ ap (λ t. t ++ rest) (sym (taken-append s.written ((packet, taken) ∷ [])));
  }

  step-IsOrdered : (s v : Running) → Step parse s v → IsOrdered s → IsOrdered v
  step-IsOrdered s v (reads bytes h e) i = subst IsOrdered (sym e) (reads-IsOrdered bytes s i)
  step-IsOrdered s v (read_fails h e) i = subst IsOrdered (sym e) i
  step-IsOrdered s v (closes h e) i =
      subst IsOrdered (sym e) (same-IsOrdered s _ refl refl refl refl refl refl i)
  step-IsOrdered s v (sends packet h e) i = subst IsOrdered (sym e) (sends-IsOrdered packet s i)
  step-IsOrdered s v (clones_sender h e) i =
      subst IsOrdered (sym e) (same-IsOrdered s _ refl refl refl refl refl refl i)
  step-IsOrdered s v (drops_sender h e) i =
      subst IsOrdered (sym e) (same-IsOrdered s _ refl refl refl refl refl refl i)
  step-IsOrdered s v (writes packet rest taken q h e) i =
      subst IsOrdered (sym e) (writes-IsOrdered packet rest taken s q i)
  step-IsOrdered s v (writer_ends q own h e) i =
      subst IsOrdered (sym e) (same-IsOrdered s _ refl refl refl refl refl refl i)
  step-IsOrdered s v (returns h k e) i =
      subst IsOrdered (sym e) (same-IsOrdered s _ refl refl refl refl refl refl i)

  -- `run` processes the packets of the device one after the other, each once, whatever the sessions
  -- and the task that writes do in between: the NAT table, the sessions that were spawned and what
  -- was sent to them are those of that sequence. And what the sessions send comes to the device
  -- in order: it is the packets that the task has taken, whether or not the device took each, and
  -- behind them those that wait in the channel.
  pub Reach-IsOrdered : (s : Running) → Reach parse started s → IsOrdered s
  Reach-IsOrdered s here = started-IsOrdered
  Reach-IsOrdered s (later {v = v} r step) = step-IsOrdered v s step (Reach-IsOrdered v r)
