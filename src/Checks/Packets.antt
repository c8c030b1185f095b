-- ===== src/Checks/Packets.antt =====
-- The packets of a TCP session, built at concrete inputs.
use reliz_protocol.Base.{
  ◌+◌, refl, [], ◌∷◌, true, All, length, leb, leb-of_le, replicate, some, none, if◌then◌else◌,
  arith,
}
use reliz_protocol.Base.Io.{chunk, read_error}
use reliz_protocol.Base.Utf8.{chars}
use reliz_protocol.Tun.Session.{FlowKey, run_tcp_session}
use reliz_protocol.Tun.Session.Packets.{PacketBuilder}
use reliz_protocol.Tun.Session.Packets.Sizes.{IsBuilt, run_tcp_session-IsBuilt}

-- Headers of zeros, and a checksum that is zero.
abbrev zeros : PacketBuilder
zeros = record {
  tcp_header_len = 20;
  ipv4_new = λ h. leb h.payload_len 65515;
  calc_checksum_ipv4 = λ h p. if leb (20 + length p.payload) 65535 then some 0 else none;
  ipv4_bytes = λ h. replicate 20 0;
  tcp_bytes = λ p n. replicate 20 0;
  tcp_header_len_lem = refl;
  ipv4_new_small = λ h small. leb-of_le h.payload_len 65515 small;
  checksum_small = λ h p small. (0, rw (leb-of_le (20 + length p.payload) 65535 small) refl);
  length-ipv4_bytes = λ h. refl;
  length-tcp_bytes = λ p n. refl;
}

abbrev a_flow : FlowKey
a_flow = record { src_ip = 167772162; src_port = 40000; dst_ip = 16843009; dst_port = 443 }

run_tcp_session-IsBuilt_example :
    All (IsBuilt zeros a_flow) (
      run_tcp_session a_flow 7 true (chunk (chars "HTTP") ∷ chunk (chars "/1.1") ∷ read_error ∷ []))
run_tcp_session-IsBuilt_example =
    run_tcp_session-IsBuilt zeros a_flow (omega arith) (omega arith) 7 true
      (chunk (chars "HTTP") ∷ chunk (chars "/1.1") ∷ read_error ∷ []) (omega arith)
