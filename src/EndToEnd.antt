-- ===== src/EndToEnd.antt =====
-- A whole session: the client of ghost-client against the handler of ghost-server.
pub mod Masked
pub mod Both
use reliz_protocol.Base.{
  ℕ, ◌+◌, ◌*◌, ◌≤◌, ◌≡◌, refl, sym, ap, subst, ◌∙◌, List, [], ◌++◌, append_assoc, length, arith,
  true, some, ok, All,
}
use reliz_protocol.Base.Random.{Rng}
use reliz_protocol.Base.Bytes.{be16}
use reliz_protocol.Base.Io.{Ending, Read, Sink}
use reliz_protocol.Base.Hex.{hex_encode}
use reliz_protocol.Common.Types.{TargetAddr, IsTarget, SocketAddr}
use reliz_protocol.Crypto.{Aead}
use reliz_protocol.Conn.{Conn}
use reliz_protocol.Conn.Laws.{at}
use reliz_protocol.Tunnel.Wire.{Carries}
use reliz_protocol.Tunnel.Receive.{extended, ended, receive_loop-Carries}
use reliz_protocol.Tunnel.Send.{IsRead, max_message}
use reliz_protocol.Tunnel.Send.Loop.{read_bytes, send_loop-IsStream}
use reliz_protocol.Tunnel.Relay.{fresh}
use reliz_protocol.Client.UserId.{parse_user_id}
use reliz_protocol.Client.Proxy.{Opened, open_tunnel}
use reliz_protocol.Client.Connect.{is_plain, open_stream, tunnel_config}
use reliz_protocol.Client.Pinning.{Tls}
use reliz_protocol.Common.Config.{ClientConfig}
use reliz_protocol.Client.Proxy
use reliz_protocol.Client.Proxy.Opening.{cipher_of, open_tunnel-IsOpened}
use reliz_protocol.Server.Handler.{
  ServerState, Network, Session, contains, resolve_target, open_session,
}
use reliz_protocol.Server.Handler
use reliz_protocol.Server.Handler.Opening.{open_session_lem}

module _ (rng : Rng) (aead : Aead) (net : Network) (state : ServerState) (config : ClientConfig)
    (target : TargetAddr) (id : List ℕ) (addr : SocketAddr) (remote : Sink) where
  -- What a session did: on a stream that it took as it is, the client opened it and sent `reads`; the
  -- server, from the bytes that the client wrote, opened it for the same user and the same target,
  -- and its upload loop delivered.
  pub record IsDelivered (reads : List Read) (room : ℕ) (e : Ending) (s : rng.State) : Type 1 where
    pub in_clear :
        (tls : Tls) (server : tls.Server) (response : Read) (c : Conn)
        → open_stream tls config server response c ≡ (ok tt, c)
    pub opened : Opened rng.State
    pub opens : open_tunnel rng aead (tunnel_config config) target (fresh room) s ≡ ok opened
    pub session : Session
    pub rest : List ℕ
    pub accepted :
        open_session aead net state (
          at (Proxy.upload rng aead (tunnel_config config) target opened reads).sink.written e [] 0)
        ≡ (ok session, at rest e [] 0)
    pub same_user : session.user_id ≡ id
    pub same_target : session.target_addr ≡ addr
    pub delivered :
        Handler.upload aead net state session (record { bytes = rest; ending = e })
        ≡ (extended remote (read_bytes reads), ended e)

  -- The opening of a session and its upload, for a client that is not configured to mask its
  -- connection. If the configured user id parses and the padding limit is a byte, the target has an
  -- encoding, the server allows the user, resolves the target and connects to it, reads fit the
  -- buffer of 8192 bytes, the connection and the target take all that is written, and the two
  -- loops of the upload run to their own end, dropped by no `select!` because a loop of the other
  -- direction has ended, then the server opens a session for that user to that target and writes
  -- to it exactly what the client's application sent, in order, and nothing else.
  pub session_delivers :
      (reads : List Read) (room : ℕ) (e : Ending) (s : rng.State)
      → is_plain config ≡ true
      → parse_user_id config.user_id ≡ ok id
      → config.max_padding_len ≤ 255
      → IsTarget target
      → contains state.allowed_users (hex_encode id) ≡ true
      → resolve_target aead net state target ≡ ok addr
      → net.connect addr ≡ some remote
      → All IsRead reads
      → 16 + max_message + max_message * length reads ≤ room
      → length (read_bytes reads) ≤ remote.room
      → IsDelivered reads room e s
  unfolding Proxy.upload Handler.upload
  session_delivers reads room e s plain parsed pad_u8 addressed allowed resolves connects fit space
        holds =
      let (o, opens, is) =
        open_tunnel-IsOpened rng aead (tunnel_config config) target id (fresh room) s parsed pad_u8
          addressed (omega arith) in
      let init = is.init in
      let id_len : length id ≡ 16 = subst (λ t. length t ≡ 16) is.same_id is.session.id_len in
      let left : max_message * length reads ≤ o.output.room =
        subst (λ t. max_message * length reads ≤ t.room) (sym init.written)
          (omega (arith, init.bounded, id_len)) in
      let stream =
        send_loop-IsStream rng aead o.cipher o.user_id (tunnel_config config).padding is.session
          reads o.output o.state fit left in
      let sent : (Proxy.upload rng aead (tunnel_config config) target o reads).sink.written
          ≡ id ++ (be16 (length init.encrypted) ++ (init.encrypted ++ stream.wire)) =
        ap (λ t. t.written) stream.written
        ∙ ap (λ t. t.written ++ stream.wire) init.written
        ∙ append_assoc id (be16 (length init.encrypted) ++ init.encrypted) stream.wire in
      record {
        in_clear = λ tls server response c. unfold open_stream in rw plain refl;
        opened = o;
        opens = opens;
        session = record {
          user_id = id;
          cipher = cipher_of aead id;
          target_addr = addr;
          remote = remote;
        };
        rest = stream.wire;
        accepted =
            ap (λ t. open_session aead net state (at t e [] 0)) sent
            ∙ open_session_lem aead net state id init.encrypted init.plaintext stream.wire []
                init.frame e 0 addr remote id_len allowed (omega (arith, init.bounded)) init.opens
                init.decodes init.same_payload
                (ap (resolve_target aead net state) init.same_target ∙ resolves) connects;
        same_user = refl;
        same_target = refl;
        delivered =
            receive_loop-Carries aead (cipher_of aead id) e remote
              (subst (λ c. Carries aead c stream.wire (read_bytes reads)) is.same_cipher
                stream.carries)
              holds;
      }
