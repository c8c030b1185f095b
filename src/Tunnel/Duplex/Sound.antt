-- ===== src/Tunnel/Duplex/Sound.antt =====
-- One direction of a session: what a round of the sending loop puts on the wire, and what a round
-- of the receiving loop takes off it.
use reliz_protocol.Base.{
  ℕ, ◌+◌, ◌*◌, ◌≤◌, ◌≡◌, ◌≢◌, refl, sym, ap, subst, ◌∙◌, List, [], ◌∷◌, ◌++◌, append_assoc,
  append-nil, length, length-append, All, arith, ok,
}
use reliz_protocol.Base.Random.{Rng}
use reliz_protocol.Base.Bytes.{be16}
use reliz_protocol.Base.Io.{closed, Read, chunk, Sink}
use reliz_protocol.Common.Types.{no_addr}
use mathlib.Core.Path.{subst₂}
use reliz_protocol.Common.Types.{GhostFrame}
use reliz_protocol.Common.Frame
use reliz_protocol.Crypto.{Aead, GhostCipher, decrypt}
use reliz_protocol.Tunnel.{Padding, receive_round, again, halt, Round}
use reliz_protocol.Tunnel.Wire.{Carries, nothing, message, Carries-append}
use reliz_protocol.Tunnel.Receive.{extended, receive_message}
use reliz_protocol.Tunnel.Send.{IsSession, IsRead, max_message, send_frame-IsSent}
use reliz_protocol.Tunnel.Send.Loop.{read_bytes}
use reliz_protocol.Tunnel.Duplex.{End, sent_by, received_by, after_round}

module _ (rng : Rng) (aead : Aead) (cipher : GhostCipher) (user_id : List ℕ) where
  open rng use {State}

  -- One direction: what its target was given, what is under way and what is still to be read are
  -- together all that there is to send.
  pub record IsSound (total : List ℕ) (reads : List Read) (wire target : Sink) : Type 0 where
    pub under_way : List ℕ
    pub carries : Carries aead cipher wire.written under_way
    pub whole : target.written ++ (under_way ++ read_bytes reads) ≡ total
    pub fits : All IsRead reads
    pub space : max_message * length reads ≤ wire.room
    pub holds : length under_way + length (read_bytes reads) ≤ target.room

  -- What a round of the receiving loop takes off the wire: one message.
  record IsTaken (wire payload : List ℕ) (target : Sink) : Type 0 where
    now : List ℕ
    left : List ℕ
    after : List ℕ
    round :
        receive_round aead cipher (record { bytes = wire; ending = closed }) target
        ≡ again (record { bytes = left; ending = closed }) (extended target now)
    remains : Carries aead cipher left after
    split : now ++ after ≡ payload

  receive_round-IsTaken :
      {wire payload : List ℕ} (target : Sink)
      → Carries aead cipher wire payload
      → wire ≢ []
      → length payload ≤ target.room
      → IsTaken wire payload target
  receive_round-IsTaken target nothing some_byte room = absurd (some_byte refl)
  receive_round-IsTaken target
        (message {wire = wire} {payload = payload} enc plain f small opens decodes rest) some_byte
        room =
      record {
        now = f.payload;
        left = wire;
        after = payload;
        round =
            receive_message aead cipher enc plain f wire closed target small opens decodes
              (omega (arith, length-append f.payload payload));
        remains = rest;
        split = refl;
      }

  module _ (total : List ℕ) where
    sent-IsSound :
        (enc plain : List ℕ) (f : GhostFrame) (b : ℕ) (bytes : List ℕ) (rest : List Read)
        (out target : Sink)
        → IsSound total (chunk (b ∷ bytes) ∷ rest) out target
        → length enc + 2 ≤ max_message
        → decrypt aead cipher enc ≡ ok plain
        → Frame.decode plain ≡ ok f
        → f.payload ≡ b ∷ bytes
        → IsSound total rest (extended out (be16 (length enc) ++ enc)) target
    sent-IsSound enc plain f b bytes rest out target h small opens decodes same = record {
      under_way = h.under_way ++ (b ∷ bytes);
      carries =
          subst₂
            (λ w p.
              Carries aead cipher (out.written ++ (be16 (length enc) ++ w)) (h.under_way ++ p))
            (append-nil enc) (append-nil f.payload ∙ same)
            (Carries-append h.carries (message enc plain f (omega arith) opens decodes nothing));
      whole =
          ap (λ t. target.written ++ t) (append_assoc h.under_way (b ∷ bytes) (read_bytes rest))
          ∙ h.whole;
      fits = h.fits.1;
      space = omega (arith, h.space);
      holds = omega (
        arith,
        h.holds,
        length-append h.under_way (b ∷ bytes),
        length-append bytes (read_bytes rest),
      );
    }

    pub sends-IsSound :
        (pad : Padding)
        → IsSession user_id pad
        → (x : End rng aead cipher user_id) (b : ℕ) (bytes : List ℕ) (rest : List Read)
          (out target : Sink)
        → IsSound total (chunk (b ∷ bytes) ∷ rest) out target
        → IsSound total rest (sent_by rng aead cipher user_id pad x (b ∷ bytes) rest out).1 target
    unfolding sent_by
    sends-IsSound pad session x b bytes rest out target h =
        let (_, one) =
          send_frame-IsSent rng aead cipher user_id pad session no_addr (b ∷ bytes) tt h.fits.0.0
            h.fits.0.1 out x.state (omega (arith, h.space)) in
        subst (λ t. IsSound total rest t target) (sym one.written)
          (sent-IsSound one.encrypted one.plaintext one.frame b bytes rest out target h one.bounded
            one.opens one.decodes one.same_payload)

    pub receives-IsSound :
        (x : End rng aead cipher user_id) (reads : List Read) (inn : Sink)
        → inn.written ≢ []
        → IsSound total reads inn x.application
        → let r = received_by rng aead cipher user_id x inn in
          IsSound total reads r.1 r.0.application
    unfolding received_by after_round
    receives-IsSound x reads inn some_byte h =
        let one =
          receive_round-IsTaken x.application h.carries some_byte (omega (arith, h.holds)) in
        rw one.round (record {
          under_way = one.after;
          carries = one.remains;
          whole =
              append_assoc x.application.written one.now (one.after ++ read_bytes reads)
              ∙ ap (λ t. x.application.written ++ t)
                  (sym (append_assoc one.now one.after (read_bytes reads))
                    ∙ ap (λ t. t ++ read_bytes reads) one.split)
              ∙ h.whole;
          fits = h.fits;
          space = h.space;
          holds = omega (arith, h.holds, length-append one.now one.after, ap length one.split);
        })

  after_round-reads :
      (x : End rng aead cipher user_id) (inn : Sink) (r : Round)
      → (after_round rng aead cipher user_id x inn r).0.reads ≡ x.reads
  unfolding after_round
  after_round-reads x inn (again src application) = refl
  after_round-reads x inn (halt application r) = refl

  pub received_by-reads :
      (x : End rng aead cipher user_id) (inn : Sink)
      → (received_by rng aead cipher user_id x inn).0.reads ≡ x.reads
  received_by-reads x inn = unfold received_by in after_round-reads x inn _
