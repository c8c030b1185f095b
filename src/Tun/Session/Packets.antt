-- ===== src/Tun/Session/Packets.antt =====
-- `send_tcp_packet` and `send_ack` of ghost-tun/src/tcp_session.rs: the bytes of a packet.
pub mod Sizes
use reliz_protocol.Base.{
  ℕ, ◌+◌, ◌*◌, ◌/◌, ◌%◌, ◌^◌, ◌≤◌, ◌≡◌, List, [], ◌∷◌, ◌++◌, Bool, true, false, Option, none, some,
  length, ltb, if◌then◌else◌, Outcome, ok, err, panic,
}
use reliz_protocol.Base.Bytes.{as_u16}
use reliz_protocol.Base.Utf8.{chars}
use reliz_protocol.Conn.{Failure, message}
use reliz_protocol.Tun.Session.{FlowKey, Packet, answer}

-- `u32::to_be_bytes`
abbrev pub to_be_bytes : ℕ → List ℕ
to_be_bytes n = (n / 256 / 256 / 256) ∷ (n / 256 / 256 % 256) ∷ (n / 256 % 256) ∷ (n % 256) ∷ []

-- The fields that the code gives to `Ipv4Header::new`, next to the TTL and the protocol.
pub record Ipv4Header : Type 0 where
  pub payload_len : ℕ
  pub source : List ℕ
  pub destination : List ℕ

-- What the code calls of etherparse: `TcpHeader::header_len` and the bytes of the two headers,
-- which take no options here, and two calls that fail on a payload beyond what the length fields
-- of the headers can hold.
pub record PacketBuilder : Type 0 where
  pub tcp_header_len : ℕ
  pub ipv4_new : Ipv4Header → Bool
  pub calc_checksum_ipv4 : Ipv4Header → Packet → Option ℕ
  pub ipv4_bytes : Ipv4Header → List ℕ
  pub tcp_bytes : Packet → ℕ → List ℕ
  pub tcp_header_len_lem : tcp_header_len ≡ 20
  pub ipv4_new_small : (h : Ipv4Header) → h.payload_len ≤ 65515 → ipv4_new h ≡ true
  pub checksum_small :
      (h : Ipv4Header) (p : Packet)
      → tcp_header_len + length p.payload ≤ 65535
      → (n : ℕ) × (calc_checksum_ipv4 h p ≡ some n)
  pub length-ipv4_bytes : (h : Ipv4Header) → length (ipv4_bytes h) ≡ 20
  pub length-tcp_bytes : (p : Packet) (n : ℕ) → length (tcp_bytes p n) ≡ tcp_header_len

module _ (lib : PacketBuilder) where
  open lib use {tcp_header_len, ipv4_new, calc_checksum_ipv4, ipv4_bytes, tcp_bytes}

  with_checksum : Ipv4Header → Packet → Option ℕ → Outcome Failure (List ℕ)
  with_checksum ip p none = err (message (chars "ValueTooBigError"))
  with_checksum ip p (some n) = ok (ipv4_bytes ip ++ (tcp_bytes p n ++ p.payload))

  with_header : Ipv4Header → Packet → Outcome Failure (List ℕ)
  unfolding with_checksum
  with_header ip p =
      if ipv4_new ip
      then with_checksum ip p (calc_checksum_ipv4 ip p)
      else err (message (chars "ValueTooBigError"))

  -- The sum of two `u16` panics when it leaves them.
  unfoldable pub send_tcp_packet : Packet → Outcome Failure (List ℕ)
  unfolding with_header
  send_tcp_packet p =
      let ip_payload_len = as_u16 tcp_header_len + as_u16 (length p.payload) in
      if ltb 65535 ip_payload_len
      then panic
      else with_header
          (record {
            payload_len = ip_payload_len;
            source = to_be_bytes p.src_ip;
            destination = to_be_bytes p.dst_ip;
          })
          p

  unfoldable pub send_ack : FlowKey → ℕ → ℕ → Outcome Failure (List ℕ)
  send_ack key seq ack = send_tcp_packet (answer key seq ack false false true false false [])
