-- ===== src/Checks/Admitted.antt =====
-- A session that the server opens, and a message that it receives, at concrete bytes.
use reliz_protocol.Base.{ℕ, ◌≡◌, refl, List, [], ◌∷◌, ◌++◌, length, replicate, ok, same, arith}
use reliz_protocol.Base.Io.{Source, closed, broken, read_exact, write_all}
use reliz_protocol.Base.Bytes.{get_u8, get_u16, copy_to_bytes}
use reliz_protocol.Base.Hex.{hex_encode}
use reliz_protocol.Common.Addr
use reliz_protocol.Common.Frame
use reliz_protocol.Crypto
use reliz_protocol.Crypto.{derive_key, decrypt}
use reliz_protocol.Conn.{Conn, recv}
use reliz_protocol.Conn.Laws.{at}
use reliz_protocol.Server.Handler.{Session, resolve_target, open_session, contains}
use reliz_protocol.Server.Handler.Admitted.{IsAdmitted, open_session-IsAdmitted}
use reliz_protocol.Checks.Instances.{transparent}
use reliz_protocol.Tunnel.{receive_loop}
use reliz_protocol.Tunnel.Relay.{fresh}
use reliz_protocol.Tunnel.Authentic.{receive_loop-IsAuthentic}
use reliz_protocol.Tunnel.Authentic.Origin.{IsAuthentic}
use reliz_protocol.Checks.Tunnel.{the_cipher}
use reliz_protocol.Checks.Client.{some_id}
use reliz_protocol.Checks.Session.{one_host, server_state}

-- A frame for port 443 of 10.0.0.1 with two bytes of payload.
abbrev greeting : List ℕ
greeting = 1 ∷ (some_id ++ (1 ∷ 10 ∷ 0 ∷ 0 ∷ 1 ∷ 1 ∷ 187 ∷ 0 ∷ 2 ∷ b'h' ∷ b'i' ∷ 0 ∷ []))

abbrev pub sealed : List ℕ
sealed = replicate 12 7 ++ (greeting ++ replicate 16 0)

abbrev arriving : Conn
arriving = at (some_id ++ (0 ∷ length sealed ∷ (sealed ++ (9 ∷ 9 ∷ [])))) closed [] 0

opened :
    (session : Session) × (open_session transparent one_host server_state arriving
      ≡ (ok session, at (9 ∷ 9 ∷ []) closed [] 0))
unfolding open_session recv read_exact contains same hex_encode Crypto.new derive_key decrypt
    Frame.decode get_u8 copy_to_bytes Addr.decode get_u16 resolve_target write_all
opened = (_, refl)

open_session-IsAdmitted_example :
    IsAdmitted transparent one_host server_state opened.0 arriving (at (9 ∷ 9 ∷ []) closed [] 0)
open_session-IsAdmitted_example =
    open_session-IsAdmitted transparent one_host server_state opened.0 arriving
      (at (9 ∷ 9 ∷ []) closed [] 0) opened.1

-- A message, two bytes of another, and a sink with room for one byte.
abbrev cut_off : Source
cut_off = record { bytes = 0 ∷ length sealed ∷ (sealed ++ (0 ∷ 3 ∷ [])); ending = broken }

receive_loop-IsAuthentic_example :
    IsAuthentic transparent the_cipher cut_off
      (fresh 1)
      (receive_loop transparent the_cipher cut_off (fresh 1))
receive_loop-IsAuthentic_example =
    receive_loop-IsAuthentic transparent the_cipher cut_off (fresh 1) (omega arith)
