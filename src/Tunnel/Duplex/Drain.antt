-- ===== src/Tunnel/Duplex/Drain.antt =====
-- That what is under way can be delivered.
use reliz_protocol.Base.{
  ℕ, ◌*◌, ◌≤◌, ◌≡◌, refl, sym, ap, ◌∙◌, List, [], ◌++◌, append_assoc, append-nil, length,
  length-append, All, false, arith,
}
use reliz_protocol.Base.Random.{Rng}
use reliz_protocol.Base.Io.{closed, Read, Sink}
use reliz_protocol.Crypto.{Aead, GhostCipher}
use reliz_protocol.Tunnel.{Padding, receive_round, again}
use reliz_protocol.Tunnel.Wire.{Carries, nothing, message}
use reliz_protocol.Tunnel.Receive.{extended, receive_message}
use reliz_protocol.Tunnel.Send.{IsSession, IsRead, max_message}
use reliz_protocol.Tunnel.Send.Loop.{read_bytes}
use reliz_protocol.Tunnel.Duplex.{
  End, World, Step, Reach, here, later, far_moves, receives, received_by, after_round,
}
use reliz_protocol.Tunnel.Duplex.Prefix.{beginning, beginning-AreSound}

module _ (rng : Rng) (aead : Aead) (cipher : GhostCipher) (user_id : List ℕ)
    (near_pad far_pad : Padding) where
  open rng use {State}

  Reach-cons :
      {w v u : World rng aead cipher user_id}
      → Step rng aead cipher user_id near_pad far_pad w v
      → Reach rng aead cipher user_id near_pad far_pad v u
      → Reach rng aead cipher user_id near_pad far_pad w u
  Reach-cons step here = later here step
  Reach-cons step (later path last) = later (Reach-cons step path) last

  -- The far end may deliver all that is under way to it, and the near end stays as it is.
  record IsDrained (w : World rng aead cipher user_id) (payload : List ℕ) : Type 0 where
    after : World rng aead cipher user_id
    path : Reach rng aead cipher user_id near_pad far_pad w after
    dry : after.outbound.written ≡ []
    same_near : after.near ≡ w.near
    given : after.far.application.written ≡ w.far.application.written ++ payload

  received_lem :
      (x : End rng aead cipher user_id) (inn : Sink) (wire payload : List ℕ)
      → receive_round aead cipher (record { bytes = inn.written; ending = closed }) x.application
        ≡ again (record { bytes = wire; ending = closed }) (extended x.application payload)
      → received_by rng aead cipher user_id x inn
        ≡ (record x { application = extended x.application payload }, record inn { written = wire })
  received_lem x inn wire payload e = unfold received_by after_round in rw e refl

  drain :
      {wire payload : List ℕ} (w : World rng aead cipher user_id)
      → Carries aead cipher wire payload
      → w.outbound.written ≡ wire
      → w.far.over ≡ false
      → length payload ≤ w.far.application.room
      → IsDrained w payload
  drain w nothing e on room = record {
    after = w;
    path = here;
    dry = e;
    same_near = refl;
    given = sym (append-nil w.far.application.written);
  }
  drain w (message {wire = wire} {payload = payload} enc plain f small opens decodes rest) e on
        room =
      let one =
        ap
          (λ t. receive_round aead cipher (record { bytes = t; ending = closed }) w.far.application)
          e
        ∙ receive_message aead cipher enc plain f wire closed w.far.application small opens decodes
            (omega (arith, length-append f.payload payload)) in
      let w1 : World rng aead cipher user_id = record w {
        far = record w.far { application = extended w.far.application f.payload };
        outbound = record w.outbound { written = wire };
      } in
      let step : Step rng aead cipher user_id near_pad far_pad w w1 =
        far_moves (w1.far, w1.inbound, w1.outbound)
          (receives on (λ n. cc (e, n))
            (ap (λ t. (t.0, w.inbound, t.1))
              (sym (received_lem w.far w.outbound wire f.payload one))))
          refl in
      let more = drain w1 rest refl on (omega (arith, length-append f.payload payload)) in
      record {
        after = more.after;
        path = Reach-cons step more.path;
        dry = more.dry;
        same_near = more.same_near;
        given = more.given ∙ append_assoc w.far.application.written f.payload payload;
      }

  -- A session is never stuck with what is under way: from each state that a session reaches and in
  -- which the far end still runs, the far end alone can go on until nothing is under way to it, and
  -- then its application was given all that the near end has read so far, and only what the near
  -- end has not read is missing. The conditions are those of a session: a user id and paddings, one
  -- cipher, reads that fit the buffer of 8192 bytes, and room for what is written.
  pub Reach-drains :
      (near_reads far_reads : List Read) (near_state far_state : State) (near_app far_app : Sink)
      (out_room in_room : ℕ) (v : World rng aead cipher user_id)
      → IsSession user_id near_pad
      → IsSession user_id far_pad
      → All IsRead near_reads
      → All IsRead far_reads
      → max_message * length near_reads ≤ out_room
      → max_message * length far_reads ≤ in_room
      → length (read_bytes near_reads) ≤ far_app.room
      → length (read_bytes far_reads) ≤ near_app.room
      → Reach rng aead cipher user_id near_pad far_pad
          (beginning rng aead cipher user_id near_reads near_state near_app far_reads far_state
            far_app out_room in_room)
          v
      → v.far.over ≡ false
      → (u : World rng aead cipher user_id) × Reach rng aead cipher user_id near_pad far_pad v u
        × (u.outbound.written ≡ [])
        × (u.near ≡ v.near)
        × (u.far.application.written ++ read_bytes u.near.reads
            ≡ far_app.written ++ read_bytes near_reads)
  Reach-drains near_reads far_reads near_state far_state near_app far_app out_room in_room v
        near_session far_session near_fits far_fits near_room far_room near_holds far_holds path
        on =
      let h =
        beginning-AreSound rng aead cipher user_id near_pad far_pad near_reads far_reads near_state
          far_state near_app far_app out_room in_room v near_session far_session near_fits far_fits
          near_room far_room near_holds far_holds path in
      let d = drain v h.outward.carries refl on (omega (arith, h.outward.holds)) in
      (
        d.after,
        d.path,
        d.dry,
        d.same_near,
        ap (λ t. t ++ read_bytes d.after.near.reads) d.given
            ∙ ap (λ t. (v.far.application.written ++ h.outward.under_way) ++ read_bytes t.reads)
                d.same_near
            ∙ append_assoc v.far.application.written h.outward.under_way (read_bytes v.near.reads)
            ∙ h.outward.whole,
      )
