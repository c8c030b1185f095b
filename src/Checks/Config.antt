-- ===== src/Checks/Config.antt =====
-- The default configurations, against each other.
use reliz_protocol.Base.{ℕ, ◌≡◌, refl, List, [], ◌∷◌, true, false, replicate, ◌++◌, same, ok, arith}
use reliz_protocol.Base.Hex.{hex_encode}
use reliz_protocol.Common.Config.{default_client, default_server}
use reliz_protocol.Client.Connect.{frag_stream, is_plain, tunnel_config}
use reliz_protocol.Client.UserId.{parse_user_id, parse_user_id-hex_encode}
use reliz_protocol.Server.Handler.{contains}
use reliz_protocol.Server.Start.{state_of}

abbrev one : List ℕ
one = replicate 15 0 ++ 1 ∷ []

-- The default server knows the default client's user id.
default_user_run : contains (state_of default_server).allowed_users (hex_encode one) ≡ true
unfolding contains default_server hex_encode same
default_user_run = refl

-- The default client masks its connection, and the default server takes connections without TLS.
default_modes_run : (is_plain default_client ≡ false) × (default_server.enable_reality ≡ false)
unfolding is_plain default_client default_server same
default_modes_run = (refl, refl)

-- With fragmentation the first 128 bytes go out two at a time.
frag_stream_run :
    frag_stream (record default_client { enable_fragmentation = true })
    ≡ record { remaining_frag_bytes = 128; fragment_size = 2; fragment_delay_ms = 5 }
unfolding frag_stream default_client
frag_stream_run = refl

-- The default client's user id parses.
default_id_run : parse_user_id (tunnel_config default_client).user_id ≡ ok one
unfolding default_client hex_encode
default_id_run = parse_user_id-hex_encode one refl (omega arith)
