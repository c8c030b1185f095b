-- ===== src/Tun/Session.antt =====
-- FlowKey, the NAT table and a TCP session of the TUN device (ghost-tun/src/tcp_session.rs), with
-- packets as the fields that the code gives them. The channel to the device is open: no send fails.
pub mod Stream
pub mod Table
pub mod Packets
use reliz_protocol.Base.{
  ℕ, ◌+◌, ◌*◌, ◌%◌, ◌^◌, List, [], ◌∷◌, ◌++◌, Bool, true, false, ◌&&◌, not, Option, none, some,
  length, ltb, ◌==◌, if◌then◌else◌,
}
use reliz_protocol.Base.Io.{Read, chunk, read_error, Sink, write_all}

pub record FlowKey : Type 0 where
  pub src_ip : ℕ
  pub src_port : ℕ
  pub dst_ip : ℕ
  pub dst_port : ℕ

-- `u32::from_be_bytes` of four bytes.
abbrev pub from_be_bytes : List ℕ → ℕ
from_be_bytes (a ∷ b ∷ c ∷ d ∷ _) = ((a * 256 + b) * 256 + c) * 256 + d
from_be_bytes _ = 0

unfoldable pub new : List ℕ → ℕ → List ℕ → ℕ → FlowKey
new src_ip src_port dst_ip dst_port = record {
  src_ip = from_be_bytes src_ip;
  src_port = src_port;
  dst_ip = from_be_bytes dst_ip;
  dst_port = dst_port;
}

unfoldable pub reverse : FlowKey → FlowKey
reverse k = record {
  src_ip = k.dst_ip;
  src_port = k.dst_port;
  dst_ip = k.src_ip;
  dst_port = k.src_port;
}

-- The derived `eq`.
unfoldable pub same_flow : FlowKey → FlowKey → Bool
same_flow a b =
    a.src_ip == b.src_ip
    && a.src_port == b.src_port
    && a.dst_ip == b.dst_ip
    && a.dst_port == b.dst_port

-- The map of the sessions, with what stands for a sender of a channel.
abbrev pub TcpNatTable {ℓ} : Type ℓ → Type ℓ
TcpNatTable Sender = List (FlowKey × Sender)

module _ {ℓ} {Sender : Type ℓ} where
  abbrev pub empty : TcpNatTable Sender
  empty = []

  unfoldable pub remove : FlowKey → TcpNatTable Sender → TcpNatTable Sender
  remove key [] = []
  remove key ((k, tx) ∷ sessions) =
      let rest = remove key sessions in if same_flow k key then rest else (k, tx) ∷ rest

  unfoldable pub get : FlowKey → TcpNatTable Sender → Option Sender
  get key [] = none
  get key ((k, tx) ∷ sessions) =
      let rest = get key sessions in if same_flow k key then some tx else rest

  unfoldable pub insert : FlowKey → Sender → TcpNatTable Sender → TcpNatTable Sender
  insert key tx sessions = (key, tx) ∷ remove key sessions

pub record Packet : Type 0 where
  pub src_ip : ℕ
  pub dst_ip : ℕ
  pub src_port : ℕ
  pub dst_port : ℕ
  pub seq : ℕ
  pub ack_number : ℕ
  pub rst : Bool
  pub syn : Bool
  pub ack : Bool
  pub fin : Bool
  pub psh : Bool
  pub payload : List ℕ

abbrev pub wrapping_add : ℕ → ℕ → ℕ
wrapping_add a b = (a + b) % 2 ^ 32

-- `send_tcp_packet` with the addresses of a flow, from its target to its client.
unfoldable pub answer : FlowKey → ℕ → ℕ → Bool → Bool → Bool → Bool → Bool → List ℕ → Packet
answer key seq ack_number rst syn ack fin psh payload = record {
  src_ip = key.dst_ip;
  dst_ip = key.src_ip;
  src_port = key.dst_port;
  dst_port = key.src_port;
  seq = seq;
  ack_number = ack_number;
  rst = rst;
  syn = syn;
  ack = ack;
  fin = fin;
  psh = psh;
  payload = payload;
}

-- The task that reads the proxy's stream: data packets, then the closing one.
unfoldable pub socks_to_tun : FlowKey → ℕ → ℕ → List Read → List Packet
socks_to_tun key seq ack_number [] = []
socks_to_tun key seq ack_number (read_error ∷ reads) =
    answer key seq ack_number false false true true false [] ∷ []
socks_to_tun key seq ack_number (chunk [] ∷ reads) =
    answer key seq ack_number false false true true false [] ∷ []
socks_to_tun key seq ack_number (chunk (b ∷ bytes) ∷ reads) =
    let rest = socks_to_tun key (wrapping_add seq (length (b ∷ bytes))) ack_number reads in
    answer key seq ack_number false false true false true (b ∷ bytes) ∷ rest

-- The packets of a session whose connection to the proxy succeeds or fails.
unfoldable pub run_tcp_session : FlowKey → ℕ → Bool → List Read → List Packet
run_tcp_session key client_initial_seq true reads =
    answer key 0 (wrapping_add client_initial_seq 1) false true true false false []
    ∷ socks_to_tun key (wrapping_add 0 1) (wrapping_add client_initial_seq 1) reads
run_tcp_session key client_initial_seq false reads =
    answer key 0 (wrapping_add client_initial_seq 1) true false true false false [] ∷ []

-- The task that writes the client's payloads to the proxy's stream, and whether it goes on.
after_write : Sink × Bool → (Sink → Sink) → Sink
after_write (sink, true) more = more sink
after_write (sink, false) more = sink

unfoldable pub data_to_socks : List (List ℕ) → Sink → Sink
unfolding after_write
data_to_socks [] sink = sink
data_to_socks ([] ∷ payloads) sink = data_to_socks payloads sink
data_to_socks ((b ∷ bytes) ∷ payloads) sink =
    after_write (write_all (b ∷ bytes) sink) (λ s. data_to_socks payloads s)
