-- ===== src/Checks/Tun.antt =====
-- The SOCKS5 client of the tunnel at a concrete target.
use reliz_protocol.Base.{ℕ, ◌≡◌, refl, [], ◌∷◌, ◌++◌, true, false, none, some, arith, ok, err}
use reliz_protocol.Base.Io.{closed, chunk}
use reliz_protocol.Base.Utf8.{chars}
use reliz_protocol.Common.Types.{SocketAddr, v4, IsTarget}
use reliz_protocol.Common.Addr.{from_socket_addr}
use reliz_protocol.Conn.{message}
use reliz_protocol.Conn.Laws.{at}
use reliz_protocol.Client.Socks.{handle_socks5_client}
use reliz_protocol.Client.Socks.Target.{success_reply}
use reliz_protocol.Tun.Session
use reliz_protocol.Tun.Session.Table.{get-insert}
use reliz_protocol.Tun.Session.Stream.{payloads, IsNumbered, run_tcp_session-IsNumbered}
use reliz_protocol.Tun.Socks5.{socks5_connect, encode_addr}
use reliz_protocol.Tun.Socks5.Dialogue.{socks5_connect_heard, socks5_connect_fails}

abbrev web : SocketAddr
web = v4 (record { ip = 10 ∷ 0 ∷ 0 ∷ 1 ∷ []; port = 443 })

web-IsTarget : IsTarget (from_socket_addr web)
unfolding from_socket_addr
web-IsTarget = record { ip_len = refl; ip_bytes = omega arith; port_fits = omega arith }

socks5_connect_heard_example :
    let after =
      (socks5_connect web (at (5 ∷ 0 ∷ (success_reply ++ chars "HTTP")) closed [] 100)).1 in
    handle_socks5_client (at (after.output.written ++ chars "GET") closed [] 100)
    ≡ (ok (from_socket_addr web), at (chars "GET") closed (5 ∷ 0 ∷ success_reply) 88)
socks5_connect_heard_example =
    socks5_connect_heard web (chars "HTTP") (chars "GET") closed closed 100 100 web-IsTarget
      (omega arith) (omega arith)

socks5_connect_fails_example :
    socks5_connect web (at (5 ∷ 0 ∷ (success_reply ++ chars "HTTP")) closed [] 100) ≡ (
      err (message (chars "Unknown SOCKS5 ATYP")),
      at
          (0 ∷ 0 ∷ 0 ∷ 0 ∷ 0 ∷ chars "HTTP")
          closed
          (5 ∷ 1 ∷ 0 ∷ 5 ∷ 1 ∷ 0 ∷ 1 ∷ 10 ∷ 0 ∷ 0 ∷ 1 ∷ 1 ∷ 187 ∷ [])
          87,
    )
unfolding encode_addr
socks5_connect_fails_example =
    socks5_connect_fails web web-IsTarget (chars "HTTP") closed [] 100 (omega arith)

abbrev flow : Session.FlowKey
flow = record { src_ip = 1; src_port = 40000; dst_ip = 2; dst_port = 443 }

abbrev another : Session.FlowKey
another = record { src_ip = 1; src_port = 40001; dst_ip = 2; dst_port = 443 }

abbrev table : Session.TcpNatTable ℕ
table = (another, 7) ∷ []

table_run :
    (Session.get flow (Session.insert flow 9 table) ≡ some 9)
    × (Session.get flow (Session.remove flow (Session.insert flow 9 table)) ≡ none)
    × ((other : Session.FlowKey)
        → Session.same_flow flow other ≡ false
        → (Session.get other (Session.insert flow 9 table) ≡ Session.get other table)
          × (Session.get other (Session.remove flow table) ≡ Session.get other table))
table_run = get-insert flow 9 table

run_tcp_session-IsNumbered_example :
    let packets = Session.run_tcp_session flow 100 true (chunk (chars "ab") ∷ chunk [] ∷ []) in
    (payloads packets ≡ chars "ab") × IsNumbered 0 packets
run_tcp_session-IsNumbered_example =
    run_tcp_session-IsNumbered flow 100 (chunk (chars "ab") ∷ chunk [] ∷ [])
