-- ===== src/Client/Proxy.antt =====
-- `proxy_through_ghost` of ghost-client/src/tunnel.rs over a connection to the server.
pub mod Opening
use reliz_protocol.Base.{
  ℕ, List, [], ◌∷◌, Bool, true, false, Option, none, some, Outcome, ok, err, panic,
}
use reliz_protocol.Base.Random.{Rng}
use reliz_protocol.Base.Io.{Source, Read, Sink, write_all}
use reliz_protocol.Base.Utf8.{Str, chars}
use reliz_protocol.Common.Types.{TargetAddr}
use reliz_protocol.Crypto
use reliz_protocol.Crypto.{Aead, GhostCipher, CryptoError, encryption_failed, derive_key}
use reliz_protocol.Conn.{Failure, crypto, io}
use reliz_protocol.Client.UserId.{parse_user_id}
use reliz_protocol.Tunnel.{
  Stop, write_failed, crypto_failed, panicked, Padding, Progress, send_frame, send_loop,
  receive_loop,
}

-- The fields of `ClientConfig` that the tunnel reads once it is connected.
pub record TunnelConfig : Type 0 where
  pub user_id : Str
  pub padding : Padding

abbrev pub secret : Str
secret = chars "ghost_default_key!"

-- What phase 1 leaves for the loops: the id, the cipher, what was written, and the generator.
pub record Opened (State : Type 0) : Type 0 where
  pub user_id : List ℕ
  pub cipher : GhostCipher
  pub output : Sink
  pub state : State

module _ (rng : Rng) (aead : Aead) (config : TunnelConfig) (target : TargetAddr) where
  open rng use {State}

  init_sent : List ℕ → GhostCipher → Progress State → Outcome Failure (Opened State)
  init_sent id cipher p = elim p.stop [
    | none ↦ ok (record { user_id = id; cipher = cipher; output = p.sink; state = p.state })
    | some panicked ↦ panic
    | some crypto_failed ↦ err (crypto (encryption_failed aead.error_text))
    | some _ ↦ err io
  ]

  -- The user id in clear, then the init frame.
  send_init : List ℕ → GhostCipher → Sink × Bool → State → Outcome Failure (Opened State)
  unfolding init_sent
  send_init id cipher (out, true) s =
      init_sent id cipher (send_frame rng aead cipher id config.padding target [] out s)
  send_init id cipher (out, false) s = err io

  with_cipher :
      List ℕ → Outcome CryptoError GhostCipher → Sink → State → Outcome Failure (Opened State)
  unfolding send_init
  with_cipher id (ok cipher) out s = send_init id cipher (write_all id out) s
  with_cipher id (err e) out s = err (crypto e)
  with_cipher id panic out s = panic

  with_id : Outcome Failure (List ℕ) → Sink → State → Outcome Failure (Opened State)
  unfolding with_cipher
  with_id (ok id) out s = with_cipher id (Crypto.new (derive_key aead id secret)) out s
  with_id (err e) out s = err e
  with_id panic out s = panic

  unfoldable pub open_tunnel : Sink → State → Outcome Failure (Opened State)
  unfolding with_id
  open_tunnel out s = with_id (parse_user_id config.user_id) out s

  -- The two loops, on what the application sends and on what the server sends.
  unfoldable pub upload : Opened State → List Read → Progress State
  upload o reads = send_loop rng aead o.cipher o.user_id config.padding reads o.output o.state

  unfoldable pub download : Opened State → Source → Sink → Sink × Stop
  download o input application = receive_loop aead o.cipher input application
