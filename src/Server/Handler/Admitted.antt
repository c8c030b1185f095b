-- ===== src/Server/Handler/Admitted.antt =====
-- What must have arrived when the server has opened a session.
use reliz_protocol.Base.{
  ℕ, ◌+◌, ◌*◌, ◌≡◌, refl, sym, ap, subst, ◌∙◌, List, [], ◌∷◌, ◌++◌, append-nil, length, true,
  Bool-cases, inl, inr, Option, none, some, arith, ltb, Outcome, ok, err, panic,
}
use reliz_protocol.Base.Io.{Sink, write_all}
use reliz_protocol.Base.Hex.{hex_encode}
use reliz_protocol.Common.Types.{SocketAddr, GhostFrame, ProtocolError, user_id_len}
use reliz_protocol.Common.Frame
use reliz_protocol.Crypto
use reliz_protocol.Crypto.{Aead, GhostCipher, CryptoError, derive_key, decrypt}
use reliz_protocol.Crypto.Laws.{new-derive_key}
use reliz_protocol.Conn.{Conn, pure, lift, recv}
use reliz_protocol.Conn.Inverse.{by_step, lift-eq-ok, IsTaken, recv-eq-ok}
use reliz_protocol.Tunnel.{enc_buf_len}
use reliz_protocol.Server.Handler.{
  ServerState, Network, Session, secret, contains, resolve_target, open_session, authorize,
  read_init, crypto_result, protocol_result, connected, forward, forwarded,
}

crypto_result-eq-ok :
    {A : Type 0} (r : Outcome CryptoError A) (a : A) → crypto_result r ≡ ok a → r ≡ ok a
unfolding crypto_result
crypto_result-eq-ok (ok x) a e = cc e
crypto_result-eq-ok (err x) a e = cc e
crypto_result-eq-ok panic a e = cc e

keyed-new :
    (aead : Aead) (id : List ℕ) (cipher : GhostCipher)
    → Crypto.new (derive_key aead id secret) ≡ ok cipher
    → cipher.key ≡ derive_key aead id secret
keyed-new aead id cipher e = cc (e, new-derive_key aead id secret)

opening_bytes :
    (id enc : List ℕ) {hi lo : ℕ} {len_buf b b1 b3 b4 b5 b' : List ℕ}
    → b ≡ id ++ b1
    → b1 ≡ b3
    → b3 ≡ len_buf ++ b4
    → len_buf ≡ hi ∷ lo ∷ []
    → b4 ≡ enc ++ b5
    → b5 ≡ b'
    → b ≡ id ++ (hi ∷ lo ∷ (enc ++ b'))
opening_bytes id enc {hi} {lo} {b4 = b4} first same prefix len_bytes body last =
    first
    ∙ ap (λ t. id ++ t)
        (same
          ∙ prefix
          ∙ ap (λ t. t ++ b4) len_bytes
          ∙ ap (λ t. hi ∷ lo ∷ t) (body ∙ ap (λ t. enc ++ t) last))

protocol_result-eq-ok :
    (r : Outcome ProtocolError GhostFrame) (f : GhostFrame) → protocol_result r ≡ ok f → r ≡ ok f
unfolding protocol_result
protocol_result-eq-ok (ok x) f e = cc e
protocol_result-eq-ok (err x) f e = cc e
protocol_result-eq-ok panic f e = cc e

module _ (aead : Aead) (net : Network) (state : ServerState) where
  connected-eq-ok :
      (o : Option Sink) (remote : Sink) → connected aead net state o ≡ ok remote → o ≡ some remote
  unfolding connected
  connected-eq-ok none remote e = cc e
  connected-eq-ok (some r) remote e = cc e

  forward-eq-ok :
      (payload : List ℕ) (before after : Sink)
      → forward aead net state payload before ≡ ok after
      → after.written ≡ before.written ++ payload
  unfolding forward forwarded write_all
  forward-eq-ok [] before after e = ground (arith, append-nil before.written)
  forward-eq-ok (b ∷ bs) before after e = ground arith

  authorize-eq-ok :
      (id : List ℕ) (c c' : Conn)
      → authorize aead net state id c ≡ (ok tt, c')
      → (contains state.allowed_users (hex_encode id) ≡ true) × (c ≡ c')
  unfolding authorize
  authorize-eq-ok id c c' e = elim (Bool-cases (contains state.allowed_users (hex_encode id))) [
    | inl h ↦ (h, ap (λ t. t.1) (rw h at e))
    | inr h ↦ cc (rw h at e)
  ]

  read_init-eq-ok :
      (len_buf enc : List ℕ) (c c' : Conn)
      → read_init aead net state len_buf c ≡ (ok enc, c')
      → (hi : ℕ) × (lo : ℕ) × (len_buf ≡ hi ∷ lo ∷ []) × IsTaken (hi * 256 + lo) enc c c'
  unfolding read_init
  read_init-eq-ok [] enc c c' e = cc e
  read_init-eq-ok (a ∷ []) enc c c' e = cc e
  read_init-eq-ok (hi ∷ lo ∷ []) enc c c' e = elim (Bool-cases (ltb enc_buf_len (hi * 256 + lo))) [
    | inl h ↦ cc (rw h at e)
    | inr h ↦ (hi, lo, refl, recv-eq-ok (hi * 256 + lo) c enc c' (rw h at e))
  ]
  read_init-eq-ok (a ∷ b ∷ d ∷ r) enc c c' e = cc e

  -- What has arrived and what it says: an allowed user's id, then the length of a frame and the
  -- frame, which the user's key opens, and which names the target of the session.
  pub record IsAdmitted (session : Session) (c c' : Conn) : Type 0 where
    pub hi : ℕ
    pub lo : ℕ
    pub encrypted : List ℕ
    pub plaintext : List ℕ
    pub frame : GhostFrame
    pub before : Sink
    pub arrived : c.input.bytes ≡ session.user_id ++ (hi ∷ lo ∷ (encrypted ++ c'.input.bytes))
    pub silent : c'.output ≡ c.output
    pub id_len : length session.user_id ≡ user_id_len
    pub size : length encrypted ≡ hi * 256 + lo
    pub allowed : contains state.allowed_users (hex_encode session.user_id) ≡ true
    pub keyed : session.cipher.key ≡ derive_key aead session.user_id secret
    pub opens : decrypt aead session.cipher encrypted ≡ ok plaintext
    pub decodes : Frame.decode plaintext ≡ ok frame
    pub resolves : resolve_target aead net state frame.target ≡ ok session.target_addr
    pub connects : net.connect session.target_addr ≡ some before
    pub forwards : session.remote.written ≡ before.written ++ frame.payload

  moved :
      (c : Conn) {a b : Session} {c1 c2 : Conn}
      → pure a c1 ≡ (ok b, c2)
      → IsAdmitted a c c1
      → IsAdmitted b c c2
  moved c {a} {b} {c1} {c2} e h =
      subst (λ t. IsAdmitted t c c2) (cc (ap (λ t. t.0) e))
        (subst (λ t. IsAdmitted a c t) (ap (λ t. t.1) e) h)

  -- The steps of an opening that has succeeded, put together.
  opened-IsAdmitted :
      (id len_buf enc plain : List ℕ) (cipher : GhostCipher) (frame : GhostFrame)
      (addr : SocketAddr) (remote remote' : Sink) (c c1 c2 c3 c4 c5 c6 c7 c8 c9 c10 : Conn)
      → recv user_id_len c ≡ (ok id, c1)
      → authorize aead net state id c1 ≡ (ok tt, c2)
      → lift (crypto_result (Crypto.new (derive_key aead id secret))) c2 ≡ (ok cipher, c3)
      → recv 2 c3 ≡ (ok len_buf, c4)
      → read_init aead net state len_buf c4 ≡ (ok enc, c5)
      → lift (crypto_result (decrypt aead cipher enc)) c5 ≡ (ok plain, c6)
      → lift (protocol_result (Frame.decode plain)) c6 ≡ (ok frame, c7)
      → lift (resolve_target aead net state frame.target) c7 ≡ (ok addr, c8)
      → lift (connected aead net state (net.connect addr)) c8 ≡ (ok remote, c9)
      → lift (forward aead net state frame.payload remote) c9 ≡ (ok remote', c10)
      → IsAdmitted
          (record { user_id = id; cipher = cipher; target_addr = addr; remote = remote' })
          c
          c10
  opened-IsAdmitted id len_buf enc plain cipher frame addr remote remote' c c1 c2 c3 c4 c5 c6 c7 c8
        c9 c10 e1 e2 e3 e4 e5 e6 e7 e8 e9 e10 =
      let first = recv-eq-ok user_id_len c id c1 e1 in
      let (allowed, same2) = authorize-eq-ok id c1 c2 e2 in
      let (new, same3) =
        lift-eq-ok (crypto_result (Crypto.new (derive_key aead id secret))) c2 cipher c3 e3 in
      let prefix = recv-eq-ok 2 c3 len_buf c4 e4 in
      let (hi, lo, len_bytes, body) = read_init-eq-ok len_buf enc c4 c5 e5 in
      let (opens, same6) = lift-eq-ok (crypto_result (decrypt aead cipher enc)) c5 plain c6 e6 in
      let (decodes, same7) = lift-eq-ok (protocol_result (Frame.decode plain)) c6 frame c7 e7 in
      let (resolves, same8) =
        lift-eq-ok (resolve_target aead net state frame.target) c7 addr c8 e8 in
      let (connects, same9) =
        lift-eq-ok (connected aead net state (net.connect addr)) c8 remote c9 e9 in
      let (forwards, same10) =
        lift-eq-ok (forward aead net state frame.payload remote) c9 remote' c10 e10 in
      record {
        hi = hi;
        lo = lo;
        encrypted = enc;
        plaintext = plain;
        frame = frame;
        before = remote;
        arrived =
            opening_bytes id enc first.taken (ap (λ t. t.input.bytes) (same2 ∙ same3)) prefix.taken
              len_bytes body.taken
              (ap (λ t. t.input.bytes) (same6 ∙ same7 ∙ same8 ∙ same9 ∙ same10));
        silent =
            sym (ap (λ t. t.output) (same6 ∙ same7 ∙ same8 ∙ same9 ∙ same10))
            ∙ body.silent
            ∙ prefix.silent
            ∙ sym (ap (λ t. t.output) (same2 ∙ same3))
            ∙ first.silent;
        id_len = first.size;
        size = body.size;
        allowed = allowed;
        keyed = keyed-new aead id cipher (crypto_result-eq-ok _ cipher new);
        opens = crypto_result-eq-ok _ plain opens;
        decodes = protocol_result-eq-ok _ frame decodes;
        resolves = resolves;
        connects = connected-eq-ok (net.connect addr) remote connects;
        forwards = forward-eq-ok frame.payload remote remote' forwards;
      }

  -- A session is opened for none but an allowed user. When `open_session` succeeds, whatever the
  -- lists, the network and the bytes are, there had arrived sixteen bytes whose hexadecimal form
  -- is among the allowed users, then a length and so many bytes, which decrypt under the key
  -- derived from that id and decode to a frame; the session's target is what that frame's target
  -- resolves to, a connection to it was made, and exactly the frame's payload was passed on to
  -- it. Nothing more of the input was taken, and nothing was written to the client.
  pub open_session-IsAdmitted :
      (session : Session) (c c' : Conn)
      → open_session aead net state c ≡ (ok session, c')
      → IsAdmitted session c c'
  unfolding open_session
  open_session-IsAdmitted session c c' e =
      by_step (recv user_id_len c) _ session c' e (λ id c1 e1 f1.
        by_step (authorize aead net state id c1) _ session c' f1 (λ u2 c2 e2 f2.
          by_step (lift (crypto_result (Crypto.new (derive_key aead id secret))) c2) _ session c' f2
            (λ cipher c3 e3 f3. by_step (recv 2 c3) _ session c' f3 (λ len_buf c4 e4 f4.
              by_step (read_init aead net state len_buf c4) _ session c' f4 (λ enc c5 e5 f5.
                by_step (lift (crypto_result (decrypt aead cipher enc)) c5) _ session c' f5
                  (λ plain c6 e6 f6.
                    by_step (lift (protocol_result (Frame.decode plain)) c6) _ session c' f6
                      (λ frame c7 e7 f7.
                        by_step (lift (resolve_target aead net state frame.target) c7) _ session c'
                          f7
                          (λ addr c8 e8 f8.
                            by_step (lift (connected aead net state (net.connect addr)) c8) _
                              session c' f8
                              (λ remote c9 e9 f9.
                                by_step (lift (forward aead net state frame.payload remote) c9) _
                                  session c' f9
                                  (λ remote' c10 e10 f10. moved c f10 (
                                    opened-IsAdmitted id len_buf enc plain cipher frame addr remote
                                      remote' c c1 c2 c3 c4 c5 c6 c7 c8 c9 c10 e1 e2 e3 e4 e5 e6 e7
                                      e8 e9 e10)))))))))))
