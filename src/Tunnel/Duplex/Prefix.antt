-- ===== src/Tunnel/Duplex/Prefix.antt =====
-- What the two ends of a session have given to their applications, at any time.
use reliz_protocol.Base.{
  ℕ, ◌*◌, ◌≤◌, ◌≡◌, refl, sym, subst, List, [], ◌++◌, length, All, false, arith,
}
use reliz_protocol.Base.Random.{Rng}
use reliz_protocol.Base.Io.{Read, Sink}
use reliz_protocol.Crypto.{Aead, GhostCipher}
use reliz_protocol.Tunnel.{Padding}
use reliz_protocol.Tunnel.Wire.{Carries, nothing}
use reliz_protocol.Tunnel.Send.{IsSession, IsRead, max_message}
use reliz_protocol.Tunnel.Send.Loop.{read_bytes}
use reliz_protocol.Tunnel.Duplex.Sound.{IsSound, sends-IsSound, receives-IsSound, received_by-reads}
use reliz_protocol.Tunnel.Relay.{fresh}
use reliz_protocol.Tunnel.Duplex.{
  End, World, Move, Step, Reach, here, later, near_moves, far_moves, sends, stops, receives,
  hangs_up, sent_by,
}

module _ (rng : Rng) (aead : Aead) (cipher : GhostCipher) (user_id : List ℕ) where
  open rng use {State}

  -- A move keeps both directions sound.
  pub record AreSound (sent got : List ℕ) (x : End rng aead cipher user_id) (out inn : Sink)
      (peer : End rng aead cipher user_id) : Type 0 where
    pub outward : IsSound rng aead cipher user_id sent x.reads out peer.application
    pub inward : IsSound rng aead cipher user_id got peer.reads inn x.application

  Move-AreSound :
      (sent got : List ℕ) (pad : Padding) (session : IsSession user_id pad)
      (x peer : End rng aead cipher user_id) (out inn : Sink)
      (r : End rng aead cipher user_id × Sink × Sink)
      → Move rng aead cipher user_id pad peer.over x out inn r
      → AreSound sent got x out inn peer
      → AreSound sent got r.0 r.1 r.2 peer
  unfolding sent_by
  Move-AreSound sent got pad session x peer out inn r (sends b bytes rest on gives e) h =
      subst (λ t. AreSound sent got t.0 t.1 t.2 peer) (sym e)
        (record {
          outward =
              sends-IsSound rng aead cipher user_id sent pad session x b bytes rest out
                peer.application
                (subst (λ t. IsSound rng aead cipher user_id sent t out peer.application) gives
                  h.outward);
          inward = h.inward;
        })
  Move-AreSound sent got pad session x peer out inn r (stops last rest on gives is_last e) h =
      subst (λ t. AreSound sent got t.0 t.1 t.2 peer) (sym e)
        (record { outward = h.outward; inward = h.inward })
  Move-AreSound sent got pad session x peer out inn r (receives on some_byte e) h =
      subst (λ t. AreSound sent got t.0 t.1 t.2 peer) (sym e)
        (record {
          outward =
              subst (λ t. IsSound rng aead cipher user_id sent t out peer.application)
                (sym (received_by-reads rng aead cipher user_id x inn)) h.outward;
          inward = receives-IsSound rng aead cipher user_id got x peer.reads inn some_byte h.inward;
        })
  Move-AreSound sent got pad session x peer out inn r (hangs_up on no_byte gone e) h =
      subst (λ t. AreSound sent got t.0 t.1 t.2 peer) (sym e)
        (record { outward = h.outward; inward = h.inward })

  module _ (near_pad far_pad : Padding) (near_session : IsSession user_id near_pad)
      (far_session : IsSession user_id far_pad) where
    Step-AreSound :
        (sent got : List ℕ) {w v : World rng aead cipher user_id}
        → Step rng aead cipher user_id near_pad far_pad w v
        → AreSound sent got w.near w.outbound w.inbound w.far
        → AreSound sent got v.near v.outbound v.inbound v.far
    Step-AreSound sent got {w} (near_moves r move e) h =
        subst (λ t. AreSound sent got t.near t.outbound t.inbound t.far) (sym e)
          (Move-AreSound sent got near_pad near_session w.near w.far w.outbound w.inbound r move h)
    Step-AreSound sent got {w} (far_moves r move e) h =
        subst (λ t. AreSound sent got t.near t.outbound t.inbound t.far) (sym e)
          (turned (
            Move-AreSound got sent far_pad far_session w.far w.near w.inbound w.outbound r move
              (turned h)))
      where
        turned :
            {sent got : List ℕ} {x y : End rng aead cipher user_id} {out inn : Sink}
            → AreSound sent got x out inn y
            → AreSound got sent y inn out x
        turned h = record { outward = h.inward; inward = h.outward }

    Reach-AreSound :
        (sent got : List ℕ) {w v : World rng aead cipher user_id}
        → Reach rng aead cipher user_id near_pad far_pad w v
        → AreSound sent got w.near w.outbound w.inbound w.far
        → AreSound sent got v.near v.outbound v.inbound v.far
    Reach-AreSound sent got here h = h
    Reach-AreSound sent got (later path step) h =
        Step-AreSound sent got step (Reach-AreSound sent got path h)

  -- A session that begins: nothing is under way.
  unfoldable pub beginning :
      List Read → State → Sink → List Read → State → Sink → ℕ → ℕ → World rng aead cipher user_id
  beginning near_reads near_state near_app far_reads far_state far_app out_room in_room = record {
    near = record { reads = near_reads; state = near_state; application = near_app; over = false };
    far = record { reads = far_reads; state = far_state; application = far_app; over = false };
    outbound = fresh out_room;
    inbound = fresh in_room;
  }

  -- All that there is to send is the bytes the peer was given, then those that are under way in
  -- whole messages, then those that are still to be read.
  abbrev pub IsAccounted : List ℕ → Sink → Sink → List Read → Type 0
  IsAccounted total target wire reads =
      (under_way : List ℕ) × Carries aead cipher wire.written under_way
      × (target.written ++ (under_way ++ read_bytes reads) ≡ total)

  fresh-IsSound :
      (reads : List Read) (room : ℕ) (target : Sink)
      → All IsRead reads
      → max_message * length reads ≤ room
      → length (read_bytes reads) ≤ target.room
      → IsSound rng aead cipher user_id
          (target.written ++ read_bytes reads)
          reads
          (fresh room)
          target
  fresh-IsSound reads room target fits enough holds = record {
    under_way = [];
    carries = nothing;
    whole = refl;
    fits = fits;
    space = enough;
    holds = omega (arith, holds);
  }

  pub beginning-AreSound :
      (near_pad far_pad : Padding) (near_reads far_reads : List Read) (near_state far_state : State)
      (near_app far_app : Sink) (out_room in_room : ℕ) (v : World rng aead cipher user_id)
      → IsSession user_id near_pad
      → IsSession user_id far_pad
      → All IsRead near_reads
      → All IsRead far_reads
      → max_message * length near_reads ≤ out_room
      → max_message * length far_reads ≤ in_room
      → length (read_bytes near_reads) ≤ far_app.room
      → length (read_bytes far_reads) ≤ near_app.room
      → Reach rng aead cipher user_id near_pad far_pad
          (beginning near_reads near_state near_app far_reads far_state far_app out_room in_room)
          v
      → AreSound
          (far_app.written ++ read_bytes near_reads)
          (near_app.written ++ read_bytes far_reads)
          v.near
          v.outbound
          v.inbound
          v.far
  unfolding beginning
  beginning-AreSound near_pad far_pad near_reads far_reads near_state far_state near_app far_app
        out_room in_room v near_session far_session near_fits far_fits near_room far_room near_holds
        far_holds path =
      Reach-AreSound near_pad far_pad near_session far_session
        (far_app.written ++ read_bytes near_reads) (near_app.written ++ read_bytes far_reads) path
        (record {
          outward = fresh-IsSound near_reads out_room far_app near_fits near_room near_holds;
          inward = fresh-IsSound far_reads in_room near_app far_fits far_room far_holds;
        })

  -- At any time of a session, whichever loops have run and however often, what an end was given,
  -- what is under way to it in whole messages and what its peer's application has still to give
  -- are together, in this order, what the end was given before and what the peer's application
  -- gives from the beginning: nothing is lost, doubled, reordered or mixed up between the
  -- directions. This needs a session's user id and paddings, one cipher, reads that fit the buffer
  -- of 8192 bytes, and room for what is written.
  pub Reach-IsAccounted :
      (near_pad far_pad : Padding) (near_reads far_reads : List Read) (near_state far_state : State)
      (near_app far_app : Sink) (out_room in_room : ℕ) (v : World rng aead cipher user_id)
      → IsSession user_id near_pad
      → IsSession user_id far_pad
      → All IsRead near_reads
      → All IsRead far_reads
      → max_message * length near_reads ≤ out_room
      → max_message * length far_reads ≤ in_room
      → length (read_bytes near_reads) ≤ far_app.room
      → length (read_bytes far_reads) ≤ near_app.room
      → Reach rng aead cipher user_id near_pad far_pad
          (beginning near_reads near_state near_app far_reads far_state far_app out_room in_room)
          v
      → IsAccounted
          (far_app.written ++ read_bytes near_reads)
          v.far.application
          v.outbound
          v.near.reads
        × IsAccounted
            (near_app.written ++ read_bytes far_reads)
            v.near.application
            v.inbound
            v.far.reads
  Reach-IsAccounted near_pad far_pad near_reads far_reads near_state far_state near_app far_app
        out_room in_room v near_session far_session near_fits far_fits near_room far_room near_holds
        far_holds path =
      let h =
        beginning-AreSound near_pad far_pad near_reads far_reads near_state far_state near_app
          far_app out_room in_room v near_session far_session near_fits far_fits near_room far_room
          near_holds far_holds path in
      (
        (h.outward.under_way, h.outward.carries, h.outward.whole),
        (h.inward.under_way, h.inward.carries, h.inward.whole),
      )
