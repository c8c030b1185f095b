-- ===== src/EndToEnd/Both.antt =====
-- Both directions of a session at the same time, from the client's opening on.
use reliz_protocol.Base.{
  ℕ, ◌+◌, ◌*◌, ◌≤◌, ◌≡◌, sym, ap, subst, ◌∙◌, List, [], ◌++◌, append-nil, length, arith, true, some,
  ok, All,
}
use reliz_protocol.Base.Random.{Rng}
use reliz_protocol.Base.Bytes.{be16}
use reliz_protocol.Base.Io.{Ending, Read, Sink}
use reliz_protocol.Base.Hex.{hex_encode}
use reliz_protocol.Common.Types.{TargetAddr, IsTarget, SocketAddr}
use reliz_protocol.Crypto.{Aead}
use reliz_protocol.Conn.Laws.{at}
use reliz_protocol.Tunnel.Send.{IsSession, IsRead, max_message}
use reliz_protocol.Tunnel.Send.Loop.{read_bytes}
use reliz_protocol.Tunnel.Relay.{fresh}
use reliz_protocol.Tunnel.Duplex.{World, Reach}
use reliz_protocol.Tunnel.Duplex.Prefix.{beginning, IsAccounted, Reach-IsAccounted}
use reliz_protocol.Client.UserId.{parse_user_id}
use reliz_protocol.Client.Proxy.{TunnelConfig, Opened, open_tunnel}
use reliz_protocol.Client.Proxy.Opening.{cipher_of, IsOpened, open_tunnel-IsOpened}
use reliz_protocol.Server.Handler.{ServerState, Network, contains, resolve_target, open_session}
use reliz_protocol.Server.Handler.Opening.{open_session_lem}

module _ (rng : Rng) (aead : Aead) (net : Network) (state : ServerState) (config : TunnelConfig)
    (target : TargetAddr) (id : List ℕ) (addr : SocketAddr) (remote : Sink) where
  -- The client and the server after the opening, each with what its application will give.
  abbrev pub opened_world :
      List Read
      → rng.State
      → Sink
      → List Read
      → rng.State
      → ℕ
      → ℕ
      → World rng aead (cipher_of aead id) id
  opened_world reads s app replies s' out_room in_room =
      beginning rng aead (cipher_of aead id) id reads s app replies s' remote out_room in_room

  -- What both ends have of a session that the client opened with `o`.
  pub record IsShared (o : Opened rng.State) (e : Ending) (reads replies : List Read) (app : Sink)
      (v : World rng aead (cipher_of aead id) id) : Type 0 where
    pub opens : open_session aead net state (at o.output.written e [] 0) ≡ (
      ok (record { user_id = id; cipher = cipher_of aead id; target_addr = addr; remote = remote }),
      at [] e [] 0,
    )
    pub same_user : o.user_id ≡ id
    pub same_cipher : o.cipher ≡ cipher_of aead id
    pub up :
        IsAccounted rng aead
          (cipher_of aead id)
          id
          (remote.written ++ read_bytes reads)
          v.far.application
          v.outbound
          v.near.reads
    pub down :
        IsAccounted rng aead
          (cipher_of aead id)
          id
          (app.written ++ read_bytes replies)
          v.near.application
          v.inbound
          v.far.reads

  -- From the bytes with which the client opens a session the server opens one for the same user,
  -- with the same cipher and to the client's target, and from then on, at any time and whichever
  -- loops have run, what the target was given, what is under way to it and what the application
  -- has still to give are what the application gives, and the other way round. This holds under
  -- the conditions of a session's opening (a user id that parses and is allowed, padding limits
  -- that are bytes, a target that has an encoding, resolves and connects), if reads fit the buffer
  -- of 8192 bytes and there is room for what is written.
  pub session_shares :
      (reads replies : List Read) (app : Sink) (room in_room : ℕ) (e : Ending) (s s' : rng.State)
      (o : Opened rng.State) (v : World rng aead (cipher_of aead id) id)
      → parse_user_id config.user_id ≡ ok id
      → config.padding.max_padding_len ≤ 255
      → state.padding.max_padding_len ≤ 255
      → IsTarget target
      → contains state.allowed_users (hex_encode id) ≡ true
      → resolve_target aead net state target ≡ ok addr
      → net.connect addr ≡ some remote
      → All IsRead reads
      → All IsRead replies
      → 16 + max_message + max_message * length reads ≤ room
      → max_message * length replies ≤ in_room
      → length (read_bytes reads) ≤ remote.room
      → length (read_bytes replies) ≤ app.room
      → open_tunnel rng aead config target (fresh room) s ≡ ok o
      → Reach rng aead
          (cipher_of aead id)
          id
          config.padding
          state.padding
          (opened_world reads o.state app replies s' o.output.room in_room)
          v
      → IsShared o e reads replies app v
  session_shares reads replies app room in_room e s s' o v parsed pad_u8 pad_u8' addressed allowed
        resolves connects fit fit' space space' holds holds' opened path =
      let (o', opens, is') =
        open_tunnel-IsOpened rng aead config target id (fresh room) s parsed pad_u8 addressed
          (omega arith) in
      let same_opened : o' ≡ o = cc (opens, opened) in
      let is = subst (λ t. IsOpened rng aead config target id (fresh room) t) same_opened is' in
      let init = is.init in
      let id_len : length id ≡ 16 = subst (λ t. length t ≡ 16) is.same_id is.session.id_len in
      let session : IsSession id config.padding =
        subst (λ t. IsSession t config.padding) is.same_id is.session in
      let left : max_message * length reads ≤ o.output.room =
        subst (λ t. max_message * length reads ≤ t.room) (sym init.written)
          (omega (arith, init.bounded, id_len)) in
      let both =
        Reach-IsAccounted rng aead (cipher_of aead id) id config.padding state.padding reads replies
          o.state s' app remote o.output.room in_room v session
          (record { id_len = session.id_len; id_bytes = session.id_bytes; pad_u8 = pad_u8' }) fit
          fit' left space' holds holds' path in
      let sent : o.output.written ≡ id ++ (be16 (length init.encrypted) ++ (init.encrypted ++ [])) =
        ap (λ t. t.written) init.written
        ∙ ap (λ t. id ++ (be16 (length init.encrypted) ++ t)) (sym (append-nil init.encrypted)) in
      record {
        opens =
            ap (λ t. open_session aead net state (at t e [] 0)) sent
            ∙ open_session_lem aead net state id init.encrypted init.plaintext [] [] init.frame e 0
                addr remote id_len allowed (omega (arith, init.bounded)) init.opens init.decodes
                init.same_payload (ap (resolve_target aead net state) init.same_target ∙ resolves)
                connects;
        same_user = is.same_id;
        same_cipher = is.same_cipher;
        up = both.0;
        down = both.1;
      }
