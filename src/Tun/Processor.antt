-- ===== src/Tun/Processor.antt =====
-- `process_packet` and `handle_tcp` of ghost-tun/src/lib.rs, on the NAT table. What they do besides
-- changing the table, spawning a session and sending to its channel, is given as effects.
pub mod Flow
pub mod Isolation
pub mod Channels
pub mod Delivery
use reliz_protocol.Base.{
  ℕ, ◌+◌, ◌/◌, ◌%◌, List, [], ◌∷◌, Bool, true, false, not, ◌&&◌, Option, none, some, length, drop,
  ltb, ◌==◌, if◌then◌else◌,
}
use reliz_protocol.Tun.Session
use reliz_protocol.Tun.Session.{FlowKey, TcpNatTable}

-- What `etherparse` reads: the headers of a packet, and how many bytes they take of it.
pub data IpNumber : Type 0 where
  tcp : IpNumber
  udp : IpNumber
  other : IpNumber

pub record IpHeader : Type 0 where
  pub protocol : IpNumber
  pub source : List ℕ
  pub destination : List ℕ
  pub header_len : ℕ

pub record TcpHeader : Type 0 where
  pub source_port : ℕ
  pub destination_port : ℕ
  pub sequence_number : ℕ
  pub header_len : ℕ
  pub syn : Bool
  pub ack : Bool
  pub fin : Bool
  pub rst : Bool

-- `Ipv4HeaderSlice::from_slice` and `TcpHeaderSlice::from_slice`.
pub record EtherParse : Type 0 where
  pub ipv4 : List ℕ → Option IpHeader
  pub tcp_header : List ℕ → Option TcpHeader

-- A TCP segment with the addresses of its packet.
pub record Segment : Type 0 where
  pub source : List ℕ
  pub destination : List ℕ
  pub header : TcpHeader
  pub payload : List ℕ

-- The table behind the lock. A channel is a number: `mpsc::unbounded_channel` makes a new one at each
-- call, for which `next_channel` stands; the code has no such field.
pub record Processor : Type 0 where
  pub nat : TcpNatTable ℕ
  pub next_channel : ℕ

-- The session that is spawned, with its flow, the client's number, its channel and its target;
-- and what is sent to the channel of a flow.
pub data Effect : Type 0 where
  spawned : FlowKey → ℕ → ℕ → List ℕ → ℕ → Effect
  sent : FlowKey → ℕ → List ℕ → Effect

unfoldable pub key_of : Segment → FlowKey
key_of seg =
    Session.new seg.source seg.header.source_port seg.destination seg.header.destination_port

-- A SYN: nothing for a flow that has a session.
open_flow : FlowKey → Segment → Option ℕ → Processor → Processor × List Effect
open_flow key seg (some tx) p = (p, [])
open_flow key seg none p = (
  record { nat = Session.insert key p.next_channel p.nat; next_channel = p.next_channel + 1 },
  spawned key seg.header.sequence_number p.next_channel seg.destination seg.header.destination_port
      ∷ [],
)

passed : FlowKey → ℕ → List ℕ → List Effect
passed key tx [] = []
passed key tx (b ∷ bytes) = sent key tx (b ∷ bytes) ∷ []

-- Any other segment: the last one of a flow ends its session by an empty message.
forward : FlowKey → Segment → Option ℕ → Processor → Processor × List Effect
unfolding passed
forward key seg none p = (p, [])
forward key seg (some tx) p =
    if seg.header.fin
    then (record p { nat = Session.remove key p.nat }, sent key tx [] ∷ [])
    else (p, passed key tx seg.payload)

unfoldable pub handle_tcp : Segment → Processor → Processor × List Effect
unfolding open_flow forward
handle_tcp seg p =
    let key = key_of seg in
    if seg.header.rst
    then (record p { nat = Session.remove key p.nat }, [])
    else if seg.header.syn && not seg.header.ack
    then open_flow key seg (Session.get key p.nat) p
    else forward key seg (Session.get key p.nat) p

module _ (parse : EtherParse) where
  -- `from_slice(payload)?` and what stands behind the header.
  with_tcp : IpHeader → List ℕ → Option TcpHeader → Processor → Option (Processor × List Effect)
  with_tcp ip bytes none p = none
  with_tcp ip bytes (some header) p = some (
      handle_tcp
        (record {
          source = ip.source;
          destination = ip.destination;
          header = header;
          payload = drop header.header_len bytes;
        })
        p)

  dispatch : IpNumber → IpHeader → List ℕ → Processor → Option (Processor × List Effect)
  unfolding with_tcp
  dispatch tcp ip bytes p = with_tcp ip bytes (parse.tcp_header bytes) p
  dispatch udp ip bytes p = some (p, [])
  dispatch other ip bytes p = some (p, [])

  with_ip : List ℕ → Option IpHeader → Processor → Option (Processor × List Effect)
  unfolding dispatch
  with_ip bytes none p = none
  with_ip bytes (some ip) p = dispatch ip.protocol ip (drop ip.header_len bytes) p

  -- `(data[0] >> 4) & 0x0f`
  version_of : List ℕ → ℕ
  version_of [] = 0
  version_of (b ∷ _) = b / 16 % 16

  -- `none` is an error, after which the table is what it was.
  unfoldable pub process_packet : List ℕ → Processor → Option (Processor × List Effect)
  unfolding with_ip version_of
  process_packet bytes p =
      if ltb (length bytes) 20
      then some (p, [])
      else if version_of bytes == 4
      then with_ip bytes (parse.ipv4 bytes) p
      else some (p, [])
