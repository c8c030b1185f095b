-- ===== src/Common/Types.antt =====
-- The constants, errors and data of ghost-common/src/lib.rs.
use reliz_protocol.Base.{ℕ, ◌*◌, ◌<◌, ◌≤◌, ◌≡◌, List, length, All}
use reliz_protocol.Base.Bytes.{IsByte, IsU16}
use reliz_protocol.Base.Utf8.{Str, IsText, utf8}

abbrev pub protocol_version : ℕ
protocol_version = 0x01

abbrev pub user_id_len : ℕ
user_id_len = 16

abbrev pub max_frame_size : ℕ
max_frame_size = 64 * 1024

abbrev pub max_padding_len : ℕ
max_padding_len = 255

abbrev pub addr_type_ipv4 : ℕ
addr_type_ipv4 = 0x01

abbrev pub addr_type_domain : ℕ
addr_type_domain = 0x03

abbrev pub addr_type_ipv6 : ℕ
addr_type_ipv6 = 0x04

abbrev pub addr_type_none : ℕ
addr_type_none = 0x00

pub data ProtocolError : Type 0 where
  invalid_version : (expected got : ℕ) → ProtocolError
  invalid_addr_type : ℕ → ProtocolError
  frame_too_large : (size max : ℕ) → ProtocolError
  buffer_underflow : (need have : ℕ) → ProtocolError
  invalid_domain_length : ℕ → ProtocolError
  io_error : ProtocolError

-- `std::net::SocketAddrV4` and `SocketAddrV6`: the octets of the address, and the port.
pub record SocketAddrV4 : Type 0 where
  pub ip : List ℕ
  pub port : ℕ

pub record SocketAddrV6 : Type 0 where
  pub ip : List ℕ
  pub port : ℕ
  pub flowinfo : ℕ
  pub scope_id : ℕ

pub data SocketAddr : Type 0 where
  v4 : SocketAddrV4 → SocketAddr
  v6 : SocketAddrV6 → SocketAddr

pub data TargetAddr : Type 0 where
  no_addr : TargetAddr
  ip_v4 : SocketAddrV4 → TargetAddr
  ip_v6 : SocketAddrV6 → TargetAddr
  domain : Str → ℕ → TargetAddr

pub record GhostFrame : Type 0 where
  pub version : ℕ
  pub user_id : List ℕ
  pub target : TargetAddr
  pub payload : List ℕ
  pub padding : List ℕ

-- What the Rust types give for nothing: array lengths, bytes, word ranges, chars.
pub record IsV4 (a : SocketAddrV4) : Type 0 where
  pub ip_len : length a.ip ≡ 4
  pub ip_bytes : All IsByte a.ip
  pub port_fits : IsU16 a.port

-- The same for an IPv6 address, with the flow information and scope that `decode` gives.
pub record IsV6 (a : SocketAddrV6) : Type 0 where
  pub ip_len : length a.ip ≡ 16
  pub ip_bytes : All IsByte a.ip
  pub port_fits : IsU16 a.port
  pub plain_flow : a.flowinfo ≡ 0
  pub plain_scope : a.scope_id ≡ 0

pub record IsDomain (d : Str) (p : ℕ) : Type 0 where
  pub text : IsText d
  pub not_empty : 0 < length (utf8 d)
  pub short : length (utf8 d) ≤ 255
  pub port_fits : IsU16 p

-- An address that has an encoding of its own.
abbrev pub IsTarget : TargetAddr → Type 0
IsTarget no_addr = Unit {0}
IsTarget (ip_v4 a) = IsV4 a
IsTarget (ip_v6 a) = IsV6 a
IsTarget (domain d p) = IsDomain d p

pub record IsFrame (f : GhostFrame) : Type 0 where
  pub current : f.version ≡ protocol_version
  pub id_len : length f.user_id ≡ user_id_len
  pub id_bytes : All IsByte f.user_id
  pub addressed : IsTarget f.target
  pub payload_fits : IsU16 (length f.payload)
  pub payload_bytes : All IsByte f.payload
  pub padding_fits : length f.padding ≤ max_padding_len
  pub padding_bytes : All IsByte f.padding
