-- ===== src/Client/Connect.antt =====
-- What `proxy_through_ghost` of ghost-client/src/tunnel.rs takes from the configuration before its
-- first byte: the fragmentation, the mode of the connection, and what the tunnel reads.
use reliz_protocol.Base.{[], Bool, ◌||◌, same, if◌then◌else◌}
use reliz_protocol.Base.Utf8.{chars}
use reliz_protocol.Common.Config.{ClientConfig}
use reliz_protocol.Client.Fragment.{FragmentedStream, new}
use reliz_protocol.Client.Proxy.{TunnelConfig}
use reliz_protocol.Client.Pinning.{Tls, connect_tls}
use reliz_protocol.Base.Io.{Read}
use reliz_protocol.Conn.{Handler, pure}

unfoldable pub frag_stream : ClientConfig → FragmentedStream
unfolding new
frag_stream config = if config.enable_fragmentation then new 128 2 5 else new 0 1 0

-- The test for the mode without TLS.
unfoldable pub is_plain : ClientConfig → Bool
is_plain config = same config.mask_domain [] || same config.mask_domain (chars "none")

-- Reality mode, on the server behind the TCP connection and its response, or the plain mode, which
-- takes the stream as it is.
unfoldable pub open_stream : (tls : Tls) → ClientConfig → tls.Server → Read → Handler (Unit {0})
open_stream tls config server response =
    if is_plain config
    then pure tt
    else connect_tls tls config.reality_auth_key config.mask_domain server response

abbrev pub tunnel_config : ClientConfig → TunnelConfig
tunnel_config config = record {
  user_id = config.user_id;
  padding = record {
    enable_padding = config.enable_padding;
    max_padding_len = config.max_padding_len;
  };
}
