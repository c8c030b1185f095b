-- ===== src/Server/Handler.antt =====
-- `handle_connection` and `resolve_target` of ghost-server/src/handler.rs.
pub mod Opening
pub mod Admitted
use reliz_protocol.Base.{
  ℕ, ◌+◌, ◌*◌, List, [], ◌∷◌, ◌++◌, Bool, true, false, ◌||◌, Option, none, some, length, ltb, same,
  if◌then◌else◌, Outcome, ok, err, panic,
}
use reliz_protocol.Base.Random.{Rng}
use reliz_protocol.Base.Io.{Source, Read, Sink, write_all}
use reliz_protocol.Base.Utf8.{Str, chars}
use reliz_protocol.Base.Hex.{hex_encode}
use reliz_protocol.Common.Types.{
  SocketAddr, v4, v6, TargetAddr, no_addr, ip_v4, ip_v6, domain, GhostFrame, ProtocolError,
  user_id_len,
}
use reliz_protocol.Common.Frame
use reliz_protocol.Crypto
use reliz_protocol.Crypto.{Aead, GhostCipher, CryptoError, derive_key, decrypt}
use reliz_protocol.Conn.{
  Failure, Handler, Conn, crypto, protocol, message, io, pure, fail, crash, lift, ◌>>=◌, ◌>>◌, recv,
}
use reliz_protocol.Tunnel.{enc_buf_len, receive_loop, send_loop, Stop, Padding, Progress}

-- `ServerState` and the fields of `ServerConfig` that the handler reads.
pub record ServerState : Type 0 where
  pub allowed_users : List Str
  pub padding : Padding

-- `lookup_host` of `domain:port`, with `none` for its error, and `TcpStream::connect`, which
-- gives a connection that takes some number of bytes.
pub record Network : Type 0 where
  pub lookup_host : Str → ℕ → Option (List SocketAddr)
  pub connect : SocketAddr → Option Sink

-- The secret that both ends have built in.
abbrev pub secret : Str
secret = chars "ghost_default_key!"

-- `HashSet::contains`
unfoldable pub contains : List Str → Str → Bool
contains [] x = false
contains (u ∷ users) x = same u x || contains users x

crypto_result {ℓ} : {A : Type ℓ} → Outcome CryptoError A → Outcome Failure A
crypto_result (ok a) = ok a
crypto_result (err e) = err (crypto e)
crypto_result panic = panic

protocol_result : Outcome ProtocolError GhostFrame → Outcome Failure GhostFrame
protocol_result (ok f) = ok f
protocol_result (err e) = err (protocol e)
protocol_result panic = panic

-- The connection to a target that was opened for a client.
pub record Session : Type 0 where
  pub user_id : List ℕ
  pub cipher : GhostCipher
  pub target_addr : SocketAddr
  pub remote : Sink

module _ (aead : Aead) (net : Network) (state : ServerState) where
  first_address : Option (List SocketAddr) → Outcome Failure SocketAddr
  first_address none = err (message (chars "DNS resolution failed"))
  first_address (some []) = err (message (chars "No addresses found"))
  first_address (some (a ∷ _)) = ok a

  unfoldable pub resolve_target : TargetAddr → Outcome Failure SocketAddr
  unfolding first_address
  resolve_target no_addr = err (message (chars "No target address in init frame"))
  resolve_target (ip_v4 a) = ok (v4 a)
  resolve_target (ip_v6 a) = ok (v6 a)
  resolve_target (domain d p) = first_address (net.lookup_host d p)

  connected : Option Sink → Outcome Failure Sink
  connected none = err (message (chars "Failed to connect to target"))
  connected (some remote) = ok remote

  forwarded : Sink × Bool → Outcome Failure Sink
  forwarded (remote, true) = ok remote
  forwarded (remote, false) = err io

  -- A payload of the first frame is passed on before the loops start.
  forward : List ℕ → Sink → Outcome Failure Sink
  unfolding forwarded
  forward [] remote = ok remote
  forward (b ∷ bs) remote = forwarded (write_all (b ∷ bs) remote)

  authorize : List ℕ → Handler (Unit {0})
  authorize user_id =
      if contains state.allowed_users (hex_encode user_id)
      then pure tt
      else fail (message (chars "Unauthorized user"))

  read_init : List ℕ → Handler (List ℕ)
  read_init (hi ∷ lo ∷ []) =
      if ltb enc_buf_len (hi * 256 + lo)
      then fail (message (chars "Init frame too large"))
      else recv (hi * 256 + lo)
  read_init _ = crash

  unfoldable pub open_session : Handler Session
  unfolding authorize read_init crypto_result protocol_result connected forward
  open_session = do
    user_id ← recv user_id_len
    authorize user_id
    cipher ← lift (crypto_result (Crypto.new (derive_key aead user_id secret)))
    len_buf ← recv 2
    encrypted_data ← read_init len_buf
    plaintext ← lift (crypto_result (decrypt aead cipher encrypted_data))
    frame ← lift (protocol_result (Frame.decode plaintext))
    target_addr ← lift (resolve_target frame.target)
    remote ← lift (connected (net.connect target_addr))
    remote' ← lift (forward frame.payload remote)
    pure
        (record { user_id = user_id; cipher = cipher; target_addr = target_addr; remote = remote' })

  -- The two loops of a session, on what the client still sends and on what the target sends, each
  -- run to its own end: the `select!` of the two may drop one earlier, when the other has ended.
  unfoldable pub upload : Session → Source → Sink × Stop
  upload session input = receive_loop aead session.cipher input session.remote

  unfoldable pub download :
      (rng : Rng) → Session → List Read → Sink → rng.State → Progress rng.State
  download rng session reads output s =
      send_loop rng aead session.cipher session.user_id state.padding reads output s
