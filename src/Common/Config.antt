-- ===== src/Common/Config.antt =====
-- The configurations of ghost-common/src/lib.rs with their defaults.
use reliz_protocol.Base.{ℕ, List, [], ◌∷◌, Bool, true, false}
use reliz_protocol.Base.Utf8.{Str, chars}

pub record ClientConfig : Type 0 where
  pub socks5_listen : Str
  pub server_addr : Str
  pub user_id : Str
  pub enable_padding : Bool
  pub enable_fragmentation : Bool
  pub max_padding_len : ℕ
  pub mask_domain : Str
  pub reality_auth_key : Str

abbrev default_user : Str
default_user = chars "00000000000000000000000000000001"

-- Thirty-two bytes of zero in hexadecimal.
abbrev pub zero_key : Str
zero_key = chars "0000000000000000000000000000000000000000000000000000000000000000"

unfoldable pub default_client : ClientConfig
default_client = record {
  socks5_listen = chars "127.0.0.1:10808";
  server_addr = chars "127.0.0.1:443";
  user_id = default_user;
  enable_padding = true;
  enable_fragmentation = false;
  max_padding_len = 64;
  mask_domain = chars "www.apple.com";
  reality_auth_key = zero_key;
}

pub record ServerConfig : Type 0 where
  pub listen_addr : Str
  pub allowed_users : List Str
  pub enable_padding : Bool
  pub max_padding_len : ℕ
  pub enable_reality : Bool
  pub mask_domain : Str
  pub reality_auth_key : Str
  pub verify_ja4 : Bool
  pub allowed_ja4 : List Str

unfoldable pub default_server : ServerConfig
default_server = record {
  listen_addr = chars "0.0.0.0:443";
  allowed_users = default_user ∷ [];
  enable_padding = true;
  max_padding_len = 64;
  enable_reality = false;
  mask_domain = chars "www.apple.com";
  reality_auth_key = zero_key;
  verify_ja4 = false;
  allowed_ja4 = [];
}
