-- ===== src/Client/Proxy/Opening.antt =====
-- What the client writes to open a session.
use reliz_protocol.Base.{ℕ, ◌+◌, ◌≤◌, ◌≡◌, refl, List, [], arith, none, ok}
use reliz_protocol.Base.Random.{Rng}
use reliz_protocol.Base.Io.{Sink, write_all_lem}
use reliz_protocol.Common.Types.{TargetAddr, IsTarget}
use reliz_protocol.Crypto.{Aead, GhostCipher, derive_key}
use reliz_protocol.Crypto.Laws.{new-derive_key}
use reliz_protocol.Tunnel.{Progress, send_frame}
use reliz_protocol.Tunnel.Receive.{extended}
use reliz_protocol.Tunnel.Send.{IsSession, IsSent, max_message, send_frame-IsSent}
use reliz_protocol.Client.UserId.{parse_user_id, parse_user_id-IsUserId}
use reliz_protocol.Client.Proxy.{TunnelConfig, Opened, secret, open_tunnel, init_sent}

-- The key of a user, as both ends derive it.
abbrev pub cipher_of : Aead → List ℕ → GhostCipher
cipher_of aead id = record { key = derive_key aead id secret }

module _ (rng : Rng) (aead : Aead) (config : TunnelConfig) (target : TargetAddr) (id : List ℕ) where
  open rng use {State}

  -- A session that is open: the id, then a message that carries the target and no payload.
  pub record IsOpened (before : Sink) (o : Opened State) : Type 0 where
    pub session : IsSession o.user_id config.padding
    pub same_id : o.user_id ≡ id
    pub same_cipher : o.cipher ≡ cipher_of aead id
    pub init : IsSent aead (cipher_of aead id) id target [] (extended before id) o.output

  init_sent_lem :
      (cipher : GhostCipher) (p : Progress State)
      → p.stop ≡ none
      → init_sent rng aead config target id cipher p
        ≡ ok (record { user_id = id; cipher = cipher; output = p.sink; state = p.state })
  unfolding init_sent
  init_sent_lem cipher p h = rw (h, init_sent)

  module _ (out : Sink) (s : State) (parsed : parse_user_id config.user_id ≡ ok id)
      (pad_u8 : config.padding.max_padding_len ≤ 255) (addressed : IsTarget target)
      (space : 16 + max_message ≤ out.room) where
    progress : Progress State
    progress =
        send_frame rng aead (cipher_of aead id) id config.padding target [] (extended out id) s

    id-IsSession : IsSession id config.padding
    id-IsSession =
        let (len, bytes) = parse_user_id-IsUserId config.user_id id parsed in
        record { id_len = len; id_bytes = bytes; pad_u8 = pad_u8 }

    progress-IsSent :
        (progress.stop ≡ none)
        × IsSent aead (cipher_of aead id) id target [] (extended out id) progress.sink
    unfolding progress
    progress-IsSent =
        send_frame-IsSent rng aead (cipher_of aead id) id config.padding id-IsSession target []
          addressed (omega arith) tt (extended out id) s (omega (arith, id-IsSession.id_len))

    opened : Opened State
    opened = record {
      user_id = id;
      cipher = cipher_of aead id;
      output = progress.sink;
      state = progress.state;
    }

    open_tunnel_lem : open_tunnel rng aead config target out s ≡ ok opened
    unfolding opened progress
    open_tunnel_lem =
        unfold open_tunnel in
        rw
          (
            parsed,
            new-derive_key aead id secret,
            write_all_lem id out (omega (arith, id-IsSession.id_len)),
          )
          (init_sent_lem (cipher_of aead id) progress progress-IsSent.0)

    pub open_tunnel-IsOpened :
        (o : Opened State) × (open_tunnel rng aead config target out s ≡ ok o) × IsOpened out o
    unfolding opened
    open_tunnel-IsOpened = (
      opened,
      open_tunnel_lem,
      record {
        session = id-IsSession;
        same_id = refl;
        same_cipher = refl;
        init = progress-IsSent.1;
      },
    )
