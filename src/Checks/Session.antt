-- ===== src/Checks/Session.antt =====
-- A session, and the loop that receives, at concrete inputs.
use reliz_protocol.Base.{ℕ, ◌≡◌, refl, List, [], ◌∷◌, same, same_refl, some, true, false, arith, ok}
use reliz_protocol.Base.Io.{Read, chunk, closed, broken}
use reliz_protocol.Base.Utf8.{chars}
use reliz_protocol.Base.Hex.{hex_encode}
use reliz_protocol.Common.Types.{SocketAddr, v4}
use reliz_protocol.Tunnel.{Padding, receive_loop}
use reliz_protocol.Tunnel.Relay.{fresh}
use reliz_protocol.Tunnel.Total.{IsEnd, receive_loop-IsEnd}
use reliz_protocol.Client.UserId.{parse_user_id-hex_encode}
use reliz_protocol.Client.Connect.{is_plain}
use reliz_protocol.Common.Config.{ClientConfig}
use reliz_protocol.Client.Proxy.{TunnelConfig, Opened, open_tunnel}
use reliz_protocol.Client.Proxy.Opening.{cipher_of, IsOpened, open_tunnel-IsOpened}
use reliz_protocol.Tunnel.Duplex.{World, Reach, here, later, far_moves, sends, sent_by}
use reliz_protocol.Tunnel.Duplex.Prefix.{beginning}
use reliz_protocol.EndToEnd.Both.{opened_world, IsShared, session_shares}
use reliz_protocol.Server.Handler.{ServerState, Network, contains, resolve_target}
use reliz_protocol.EndToEnd.{IsDelivered, session_delivers}
use reliz_protocol.Checks.Instances.{steady, transparent}
use reliz_protocol.Checks.Common.{site, site-IsTarget}
use reliz_protocol.Checks.Client.{some_id}
use reliz_protocol.Checks.Tunnel.{the_cipher}

abbrev host : SocketAddr
host = v4 (record { ip = 10 ∷ 0 ∷ 0 ∷ 1 ∷ []; port = 443 })

-- A network in which every name is the same host and every host accepts.
abbrev pub one_host : Network
one_host = record { lookup_host = λ d p. some (host ∷ []); connect = λ a. some (fresh 1000) }

abbrev padded : Padding
padded = record { enable_padding = true; max_padding_len = 64 }

abbrev pub server_state : ServerState
server_state = record { allowed_users = hex_encode some_id ∷ chars "other" ∷ []; padding = padded }

abbrev client_config : TunnelConfig
client_config = record { user_id = hex_encode some_id; padding = padded }

-- A client that does not mask its connection.
abbrev plain_client : ClientConfig
plain_client = record {
  socks5_listen = chars "127.0.0.1:10808";
  server_addr = chars "127.0.0.1:443";
  user_id = hex_encode some_id;
  enable_padding = true;
  enable_fragmentation = false;
  max_padding_len = 64;
  mask_domain = chars "none";
  reality_auth_key = [];
}

plain : is_plain plain_client ≡ true
unfolding is_plain same
plain = refl

abbrev reads : List Read
reads = chunk (chars "GET") ∷ chunk (chars " /") ∷ chunk [] ∷ []

allowed : contains server_state.allowed_users (hex_encode some_id) ≡ true
allowed = unfold contains in rw (same_refl (hex_encode some_id)) refl

resolves : resolve_target transparent one_host server_state site ≡ ok host
unfolding resolve_target
resolves = refl

session_delivers_example :
    IsDelivered steady transparent one_host server_state plain_client site some_id host
      (fresh 1000)
      reads
      100000
      closed
      0
session_delivers_example =
    session_delivers steady transparent one_host server_state plain_client site some_id host
      (fresh 1000) reads 100000 closed 0 plain (parse_user_id-hex_encode some_id refl (omega arith))
      (omega arith) site-IsTarget allowed resolves refl (omega arith) (omega arith) (omega arith)

receive_loop-IsEnd_example :
    IsEnd
      (receive_loop transparent the_cipher
        (record { bytes = 0 ∷ 3 ∷ 1 ∷ 2 ∷ 3 ∷ 9 ∷ []; ending = broken })
        (fresh 5)).1
receive_loop-IsEnd_example =
    receive_loop-IsEnd transparent the_cipher
      (record { bytes = 0 ∷ 3 ∷ 1 ∷ 2 ∷ 3 ∷ 9 ∷ []; ending = broken }) (fresh 5) (omega arith)

opening :
    (o : Opened ℕ) × (open_tunnel steady transparent client_config site (fresh 100000) 0 ≡ ok o)
    × IsOpened steady transparent client_config site some_id (fresh 100000) o
opening =
    open_tunnel-IsOpened steady transparent client_config site some_id (fresh 100000) 0
      (parse_user_id-hex_encode some_id refl (omega arith)) (omega arith) site-IsTarget
      (omega arith)

abbrev answer : List Read
answer = chunk (chars "HTTP") ∷ []

abbrev start : World steady transparent (cipher_of transparent some_id) some_id
start =
    opened_world steady transparent one_host server_state client_config site some_id host
      (fresh 1000) reads opening.0.state (fresh 1000) answer 5 opening.0.output.room 100000

-- The server has sent the answer.
abbrev answered : World steady transparent (cipher_of transparent some_id) some_id
answered =
    let r =
      sent_by steady transparent (cipher_of transparent some_id) some_id padded start.far
        (chars "HTTP") [] start.inbound in
    record start { far = r.0; inbound = r.1 }

answered-Reach :
    Reach steady transparent (cipher_of transparent some_id) some_id padded padded start answered
unfolding beginning
answered-Reach = later here (far_moves _ (sends b'H' (chars "TTP") [] refl refl refl) refl)

session_shares_example :
    IsShared steady transparent one_host server_state client_config site some_id host
      (fresh 1000)
      opening.0
      closed
      reads
      answer
      (fresh 1000)
      answered
session_shares_example =
    session_shares steady transparent one_host server_state client_config site some_id host
      (fresh 1000) reads answer (fresh 1000) 100000 100000 closed 0 5 opening.0 answered
      (parse_user_id-hex_encode some_id refl (omega arith)) (omega arith) (omega arith)
      site-IsTarget allowed resolves refl (omega arith) (omega arith) (omega arith) (omega arith)
      (omega arith) (omega arith) opening.1 answered-Reach
