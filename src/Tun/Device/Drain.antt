-- ===== src/Tun/Device/Drain.antt =====
-- What the task that writes to the device does with the packets of its channel.
use reliz_protocol.Base.{
  ◌≡◌, refl, sym, ap, ◌∙◌, List, [], ◌∷◌, ◌++◌, append_assoc, append-nil, length, Bool, false,
  arith,
}
use reliz_protocol.Tun.Session.{Packet}
use reliz_protocol.Tun.Processor.{EtherParse}
use reliz_protocol.Tun.Device.{Running, started, write_packet, writes, Reach, here, later}
use reliz_protocol.Tun.Device.Ending.{Reach-IsOpen}
use reliz_protocol.Tun.Device.Order.{Reach-IsOrdered, taken_packets, taken-append}

-- Packets, each with whether the device took it.
abbrev pub with_fates : List Packet → List Bool → List (Packet × Bool)
with_fates [] fates = []
with_fates (packet ∷ packets) [] = []
with_fates (packet ∷ packets) (fate ∷ fates) = (packet, fate) ∷ with_fates packets fates

taken-with_fates :
    (packets : List Packet) (fates : List Bool)
    → length fates ≡ length packets
    → taken_packets (with_fates packets fates) ≡ packets
taken-with_fates [] fates same = refl
taken-with_fates (packet ∷ packets) [] same = absurd (omega arith)
taken-with_fates (packet ∷ packets) (fate ∷ fates) same =
    ap (λ t. packet ∷ t) (taken-with_fates packets fates (omega arith))

module _ (parse : EtherParse) where
  Reach-onward : {s v w : Running} → Reach parse s v → Reach parse v w → Reach parse s w
  Reach-onward path here = path
  Reach-onward path (later more step) = later (Reach-onward path more) step

  -- A state from `s` on, in which every packet of the channel was written, with these fates.
  pub record IsDrained (s : Running) (fates : List Bool) : Type 0 where
    pub after : Running
    pub path : Reach parse s after
    pub emptied : after.queue ≡ []
    pub written : after.written ≡ s.written ++ with_fates s.queue fates
    pub complete : taken_packets after.written ≡ s.outgoing

  drained :
      (s : Running) (packets : List Packet) (fates : List Bool)
      → s.queue ≡ packets
      → length fates ≡ length packets
      → s.writer_ended ≡ false
      → (v : Running) × Reach parse s v
        × (v.queue ≡ [])
        × (v.written ≡ s.written ++ with_fates packets fates)
  unfolding write_packet
  drained s [] fates q same on = (s, here, q, sym (append-nil s.written))
  drained s (packet ∷ packets) [] q same on = absurd (omega arith)
  drained s (packet ∷ packets) (fate ∷ fates) q same on =
      let next = write_packet parse packet packets fate s in
      let (v, path, empty, all) = drained next packets fates refl (omega arith) on in
      (
        v,
        Reach-onward (later here (writes packet packets fate q on refl)) path,
        empty,
        all ∙ append_assoc s.written ((packet, fate) ∷ []) (with_fates packets fates),
      )

  -- A write that the device refuses loses only its packet. From every state that `run` reaches, and
  -- whichever of the packets in the channel the device is going to take, the writing task can go
  -- on until the channel is empty: it writes these packets in order, behind those before, each
  -- once. What it then has written, taken by the device or not, is all that the sessions sent.
  pub Reach-IsDrained :
      (s : Running) (fates : List Bool)
      → Reach parse started s
      → length fates ≡ length s.queue
      → IsDrained s fates
  Reach-IsDrained s fates path same =
      let is = Reach-IsOrdered parse s path in
      let (v, onward, empty, all) =
        drained s s.queue fates refl same (Reach-IsOpen parse s path).writer_goes_on in
      record {
        after = v;
        path = onward;
        emptied = empty;
        written = all;
        complete =
            ap taken_packets all
            ∙ taken-append s.written (with_fates s.queue fates)
            ∙ ap (λ t. taken_packets s.written ++ t) (taken-with_fates s.queue fates same)
            ∙ sym is.forwarded;
      }
