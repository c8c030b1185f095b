-- ===== src/Tun/Device/Ending.antt =====
-- Whether `run` comes to an end.
use reliz_protocol.Base.{◌≡◌, ◌≢◌, refl, sym, subst, ◌∙◌, true, false}
use reliz_protocol.Tun.Processor.{EtherParse}
use reliz_protocol.Tun.Device.{
  returned, Running, started, read_packet, write_packet, send_packet, Step, reads, read_fails,
  closes, sends, clones_sender, drops_sender, writes, writer_ends, returns, Reach, here, later,
}

-- The sender of `run` is there, so its channel is open and the writing task goes on.
pub record IsOpen (s : Running) : Type 0 where
  pub holds_sender : s.own_sender ≡ true
  pub writer_goes_on : s.writer_ended ≡ false
  pub not_returned : s.phase ≢ returned

module _ (parse : EtherParse) where
  started-IsOpen : IsOpen started
  started-IsOpen = record { holds_sender = refl; writer_goes_on = refl; not_returned = λ e. cc e }

  -- A step that leaves the sender, the task and the phase as they are.
  same-IsOpen :
      (s v : Running)
      → v.own_sender ≡ s.own_sender
      → v.writer_ended ≡ s.writer_ended
      → v.phase ≡ s.phase
      → IsOpen s
      → IsOpen v
  same-IsOpen s v own writer phase i = record {
    holds_sender = own ∙ i.holds_sender;
    writer_goes_on = writer ∙ i.writer_goes_on;
    not_returned = λ e. i.not_returned (sym phase ∙ e);
  }

  step-IsOpen : (s v : Running) → Step parse s v → IsOpen s → IsOpen v
  unfolding read_packet write_packet send_packet
  step-IsOpen s v (reads bytes h e) i = subst IsOpen (sym e) (same-IsOpen s _ refl refl refl i)
  step-IsOpen s v (read_fails h e) i = subst IsOpen (sym e) i
  step-IsOpen s v (closes h e) i = subst IsOpen (sym e) (record {
    holds_sender = i.holds_sender;
    writer_goes_on = i.writer_goes_on;
    not_returned = λ x. cc x;
  })
  step-IsOpen s v (sends packet h e) i = subst IsOpen (sym e) (same-IsOpen s _ refl refl refl i)
  step-IsOpen s v (clones_sender h e) i = subst IsOpen (sym e) (same-IsOpen s _ refl refl refl i)
  step-IsOpen s v (drops_sender h e) i = subst IsOpen (sym e) (same-IsOpen s _ refl refl refl i)
  step-IsOpen s v (writes packet rest taken h k e) i =
      subst IsOpen (sym e) (same-IsOpen s _ refl refl refl i)
  step-IsOpen s v (writer_ends q own h e) i = cc (own, i.holds_sender)
  step-IsOpen s v (returns h k e) i = cc (k, i.writer_goes_on)

  -- `run` never returns. Whatever the device gives, also when it has been closed and every session
  -- has ended, and in whatever order the tasks go on: `run` waits for the task that writes, this
  -- task ends when no sender of its channel is left, and `run` itself still holds one.
  pub Reach-IsOpen : (s : Running) → Reach parse started s → IsOpen s
  Reach-IsOpen s here = started-IsOpen
  Reach-IsOpen s (later {v = v} r step) = step-IsOpen v s step (Reach-IsOpen v r)
