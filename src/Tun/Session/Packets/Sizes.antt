-- ===== src/Tun/Session/Packets/Sizes.antt =====
-- Every packet of a session can be built, and bears the addresses of its flow, reversed.
use reliz_protocol.Base.{
  ℕ, ◌+◌, ◌%◌, ◌^◌, ◌≤◌, ◌<◌, ◌≡◌, refl, List, [], ◌∷◌, ◌++◌, Bool, true, false, All, length,
  length-append, le→ltb, ok, some, arith,
}
use reliz_protocol.Base.Bytes.{as_u16}
use reliz_protocol.Base.Io.{Read, chunk, read_error}
use reliz_protocol.Tun.Session
use reliz_protocol.Tun.Session.{
  FlowKey, from_be_bytes, reverse, Packet, answer, wrapping_add, socks_to_tun, run_tcp_session,
}
use reliz_protocol.Tun.Session.Packets.{
  to_be_bytes, Ipv4Header, PacketBuilder, send_tcp_packet, with_header, with_checksum,
}

-- What a read into the buffer of 8192 bytes gives.
abbrev pub FitsBuffer : Read → Type 0
FitsBuffer (chunk bytes) = length bytes ≤ 8192
FitsBuffer read_error = Unit {0}

from_be_bytes-to_be_bytes : (n : ℕ) → n < 2 ^ 32 → from_be_bytes (to_be_bytes n) ≡ n
from_be_bytes-to_be_bytes n h = omega arith

-- The header of a packet.
abbrev header_of : PacketBuilder → Packet → Ipv4Header
header_of lib p = record {
  payload_len = as_u16 lib.tcp_header_len + as_u16 (length p.payload);
  source = to_be_bytes p.src_ip;
  destination = to_be_bytes p.dst_ip;
}

small_sum : (a n : ℕ) → a ≡ 20 → n ≤ 8192 → a % 65536 + n % 65536 ≤ 65515
small_sum a n h small = omega arith

below_u16 : (n : ℕ) → n ≤ 65515 → n ≤ 65535
below_u16 n h = omega arith

send_tcp_packet-eq-ok :
    (lib : PacketBuilder) (p : Packet) (n : ℕ)
    → length p.payload ≤ 8192
    → lib.calc_checksum_ipv4 (header_of lib p) p ≡ some n
    → send_tcp_packet lib p
      ≡ ok (lib.ipv4_bytes (header_of lib p) ++ (lib.tcp_bytes p n ++ p.payload))
unfolding send_tcp_packet with_header with_checksum
send_tcp_packet-eq-ok lib p n small sum =
    let few = small_sum lib.tcp_header_len (length p.payload) lib.tcp_header_len_lem small in
    rw
      (
        le→ltb 65535 (as_u16 lib.tcp_header_len + as_u16 (length p.payload)) (below_u16 _ few),
        lib.ipv4_new_small (header_of lib p) few,
        sum,
      )
      refl

module _ (lib : PacketBuilder) (key : FlowKey) where
  -- A packet that was built, of the size of its headers and its payload; and the flow that its
  -- addresses are read as.
  pub record IsBuilt (p : Packet) : Type 0 where
    pub bytes : List ℕ
    pub builds : send_tcp_packet lib p ≡ ok bytes
    pub size : length bytes ≡ 40 + length p.payload
    pub flow :
        Session.new (to_be_bytes p.src_ip) p.src_port (to_be_bytes p.dst_ip) p.dst_port
        ≡ reverse key

  answer-IsBuilt :
      (p : Packet)
      → Session.new (to_be_bytes p.src_ip) p.src_port (to_be_bytes p.dst_ip) p.dst_port
        ≡ reverse key
      → length p.payload ≤ 8192
      → IsBuilt p
  answer-IsBuilt p flow small =
      let (n, sum) =
        lib.checksum_small (header_of lib p) p (omega (arith, lib.tcp_header_len_lem)) in
      let ip = lib.ipv4_bytes (header_of lib p) in
      let tcp = lib.tcp_bytes p n in
      record {
        bytes = ip ++ (tcp ++ p.payload);
        builds = send_tcp_packet-eq-ok lib p n small sum;
        size = omega (
          arith,
          length-append ip (tcp ++ p.payload),
          length-append tcp p.payload,
          lib.length-ipv4_bytes (header_of lib p),
          lib.length-tcp_bytes p n,
          lib.tcp_header_len_lem,
        );
        flow = flow;
      }

  module _ (src : key.src_ip < 2 ^ 32) (dst : key.dst_ip < 2 ^ 32) where
    addressed :
        Session.new (to_be_bytes key.dst_ip) key.dst_port (to_be_bytes key.src_ip) key.src_port
        ≡ reverse key
    unfolding Session.new reverse
    addressed = λ i. record {
      src_ip = from_be_bytes-to_be_bytes key.dst_ip dst i;
      src_port = key.dst_port;
      dst_ip = from_be_bytes-to_be_bytes key.src_ip src i;
      dst_port = key.src_port;
    }

    socks_to_tun-IsBuilt :
        (seq ack_number : ℕ) (reads : List Read)
        → All FitsBuffer reads
        → All IsBuilt (socks_to_tun key seq ack_number reads)
    unfolding socks_to_tun answer
    socks_to_tun-IsBuilt seq ack_number [] h = tt
    socks_to_tun-IsBuilt seq ack_number (read_error ∷ reads) h =
        (answer-IsBuilt _ addressed (omega arith), tt)
    socks_to_tun-IsBuilt seq ack_number (chunk [] ∷ reads) h =
        (answer-IsBuilt _ addressed (omega arith), tt)
    socks_to_tun-IsBuilt seq ack_number (chunk (b ∷ bytes) ∷ reads) h = (
      answer-IsBuilt _ addressed h.0,
      socks_to_tun-IsBuilt (wrapping_add seq (length (b ∷ bytes))) ack_number reads h.1,
    )

    -- Every packet of a session can be built and finds its client. When the addresses of the flow
    -- are words of 32 bits and no read of the proxy's stream gives more than 8192 bytes, each
    -- packet that the session sends, whether it is connected or not, is built without an error:
    -- the length of its header and payload does not overflow 16 bits, and it has forty bytes more
    -- than its payload; and its addresses and ports are those of the reversed flow.
    pub run_tcp_session-IsBuilt :
        (client_initial_seq : ℕ) (connected : Bool) (reads : List Read)
        → All FitsBuffer reads
        → All IsBuilt (run_tcp_session key client_initial_seq connected reads)
    unfolding run_tcp_session answer
    run_tcp_session-IsBuilt client_initial_seq true reads h = (
      answer-IsBuilt _ addressed (omega arith),
      socks_to_tun-IsBuilt (wrapping_add 0 1) (wrapping_add client_initial_seq 1) reads h,
    )
    run_tcp_session-IsBuilt client_initial_seq false reads h =
        (answer-IsBuilt _ addressed (omega arith), tt)
