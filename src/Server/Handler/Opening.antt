-- ===== src/Server/Handler/Opening.antt =====
-- A client's opening, read by the server, and the whole upload of a session.
use reliz_protocol.Base.{
  ℕ, ◌+◌, ◌*◌, ◌/◌, ◌%◌, ◌<◌, ◌≡◌, refl, List, [], ◌++◌, length, arith, true, some, le→ltb, ok,
}
use reliz_protocol.Base.Bytes.{be16}
use reliz_protocol.Base.Io.{Ending, Sink}
use reliz_protocol.Base.Hex.{hex_encode}
use reliz_protocol.Common.Types.{SocketAddr, GhostFrame}
use reliz_protocol.Common.Frame
use reliz_protocol.Crypto.{Aead, GhostCipher, derive_key, decrypt}
use reliz_protocol.Crypto.Laws.{new-derive_key}
use reliz_protocol.Conn.Laws.{at, recv_lem}
use reliz_protocol.Tunnel.{enc_buf_len}
use reliz_protocol.Server.Handler.{
  ServerState, Network, secret, contains, read_init, resolve_target, open_session,
}

module _ (aead : Aead) (net : Network) (state : ServerState) where
  read_init_lem :
      (n : ℕ) (enc rest out : List ℕ) (e : Ending) (room : ℕ)
      → length enc ≡ n
      → n < 65536
      → read_init aead net state (be16 n) (at (enc ++ rest) e out room)
        ≡ (ok enc, at rest e out room)
  read_init_lem n enc rest out e room len small =
      unfold read_init in
      rw (join n, le→ltb enc_buf_len n (omega arith)) (recv_lem e out room n enc rest len)
    where
      join : (n : ℕ) → n / 256 * 256 + n % 256 ≡ n
      join n = omega arith

  -- The server reads back what opens a session.
  pub open_session_lem :
      (id enc plain rest out : List ℕ) (frame : GhostFrame) (e : Ending) (room : ℕ)
      (addr : SocketAddr) (remote : Sink)
      → let cipher : GhostCipher = record { key = derive_key aead id secret } in
        length id ≡ 16
        → contains state.allowed_users (hex_encode id) ≡ true
        → length enc < 65536
        → decrypt aead cipher enc ≡ ok plain
        → Frame.decode plain ≡ ok frame
        → frame.payload ≡ []
        → resolve_target aead net state frame.target ≡ ok addr
        → net.connect addr ≡ some remote
        → open_session aead net state (at (id ++ (be16 (length enc) ++ (enc ++ rest))) e out room)
          ≡ (
            ok (record { user_id = id; cipher = cipher; target_addr = addr; remote = remote }),
            at rest e out room,
          )
  open_session_lem id enc plain rest out frame e room addr remote len allowed small opens decodes
        quiet resolves connects =
      unfold open_session in
      rw (
        recv_lem e out room 16 id (be16 (length enc) ++ (enc ++ rest)) len,
        allowed,
        new-derive_key aead id secret,
        recv_lem e out room 2 (be16 (length enc)) (enc ++ rest) refl,
        read_init_lem (length enc) enc rest out e room refl small,
        opens,
        decodes,
        resolves,
        connects,
        quiet,
      )
