-- ===== src/Checks/Processor.antt =====
-- The packet processor of the tunnel on segments of two flows.
use reliz_protocol.Base.{ℕ, ◌≡◌, refl, List, [], ◌∷◌, true, false, none, some, replicate, arith}
use reliz_protocol.Base.Utf8.{chars}
use reliz_protocol.Tun.Session
use reliz_protocol.Tun.Session.{FlowKey, same_flow, data_to_socks}
use reliz_protocol.Tun.Processor.{
  Segment, Processor, tcp, TcpHeader, EtherParse, spawned, key_of, handle_tcp, process_packet,
}
use reliz_protocol.Tun.Processor.Flow.{opened, received, flow_run, only, seen_by, run}
use reliz_protocol.Tun.Processor.Isolation.{is_open, run-flow_run}
use reliz_protocol.Tun.Processor.Channels.{IsOwned, run-IsOwned}
use reliz_protocol.Tun.Processor.Delivery.{messages, run-delivers}
use reliz_protocol.Tunnel.Receive.{extended}
use reliz_protocol.Tunnel.Relay.{fresh}

abbrev data_header : ℕ → TcpHeader
data_header port = record {
  source_port = port;
  destination_port = 443;
  sequence_number = 8;
  header_len = 20;
  syn = false;
  ack = true;
  fin = false;
  rst = false;
}

abbrev syn_header : ℕ → TcpHeader
syn_header port = record (data_header port) { sequence_number = 7; syn = true; ack = false }

abbrev client : List ℕ
client = 10 ∷ 0 ∷ 0 ∷ 2 ∷ []

abbrev site : List ℕ
site = 1 ∷ 1 ∷ 1 ∷ 1 ∷ []

abbrev segment : TcpHeader → List ℕ → Segment
segment header payload = record {
  source = client;
  destination = site;
  header = header;
  payload = payload;
}

abbrev pub syn : ℕ → Segment
syn port = segment (syn_header port) []

abbrev text : ℕ → List ℕ → Segment
text port payload = segment (data_header port) payload

abbrev mixed : List Segment
mixed =
    syn 40000
    ∷ syn 40001
    ∷ text 40001 (chars "PUT")
    ∷ text 40000 (chars "GET")
    ∷ text 40001 []
    ∷ text 40000 (chars " /")
    ∷ []

abbrev idle : Processor
idle = record { nat = []; next_channel = 0 }

abbrev first : FlowKey
first = record { src_ip = 0x0a000002; src_port = 40000; dst_ip = 0x01010101; dst_port = 443 }

run-flow_run_example :
    let r = run mixed idle in
    (is_open first r.0 ≡ true)
    × (seen_by first r.1 ≡ opened 7 ∷ received (chars "GET") ∷ received (chars " /") ∷ [])
unfolding flow_run only same_flow key_of Session.new Session.get
run-flow_run_example = run-flow_run mixed first idle

run-IsOwned_example : IsOwned (λ c. none) (run mixed idle).1
unfolding Session.get
run-IsOwned_example =
    run-IsOwned mixed (λ c. none) idle (record { listed = λ key c e. cc; unused = λ c le. refl })

run-delivers_example :
    data_to_socks (messages (seen_by first (run mixed idle).1)) (fresh 100)
    ≡ extended (fresh 100) (chars "GET /")
unfolding only same_flow key_of Session.new Session.get
run-delivers_example =
    run-delivers mixed first idle (syn 40000)
      (text 40000 (chars "GET") ∷ text 40000 (chars " /") ∷ []) (fresh 100) refl (refl, refl)
      ((refl, refl, refl), ((refl, refl, refl), tt)) refl (omega arith)

-- A parser that takes every packet for the SYN of the first flow.
abbrev pub syn_only : EtherParse
syn_only = record {
  ipv4 = λ bytes.
      some (record { protocol = tcp; source = client; destination = site; header_len = 20 });
  tcp_header = λ bytes. some (syn_header 40000);
}

-- Twenty bytes that begin with the version 4 open the flow, and with another version they do not.
version_run :
    (process_packet syn_only (0x45 ∷ replicate 39 0) idle
      ≡ some (record { nat = (first, 0) ∷ []; next_channel = 1 }, spawned first 7 0 site 443 ∷ []))
    × (process_packet syn_only (0x60 ∷ replicate 39 0) idle ≡ some (idle, []))
unfolding process_packet handle_tcp key_of Session.get Session.insert Session.new Session.remove
version_run = (refl, refl)
