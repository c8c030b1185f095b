-- ===== src/Server/Start.antt =====
-- The state that ghost-server/src/lib.rs makes from the configuration for its connections.
use reliz_protocol.Common.Config.{ServerConfig}
use reliz_protocol.Server.Handler.{ServerState}

abbrev pub state_of : ServerConfig → ServerState
state_of config = record {
  allowed_users = config.allowed_users;
  padding = record {
    enable_padding = config.enable_padding;
    max_padding_len = config.max_padding_len;
  };
}
