-- ===== src/Tun/Session/Stream.antt =====
-- The packets of a session are a TCP stream of what the proxy sent.
use reliz_protocol.Base.{ℕ, suc, ◌≡◌, refl, ap, List, [], ◌∷◌, ◌++◌, length, Bool, true, false}
use reliz_protocol.Base.Io.{Read, chunk, read_error}
use reliz_protocol.Tunnel.Send.Loop.{read_bytes}
use reliz_protocol.Tun.Session.{
  FlowKey, Packet, answer, wrapping_add, socks_to_tun, run_tcp_session,
}

abbrev pub payloads : List Packet → List ℕ
payloads [] = []
payloads (p ∷ packets) = p.payload ++ payloads packets

-- The numbers that a segment takes: its bytes, and one for SYN and for FIN.
abbrev one_more : Bool → ℕ → ℕ
one_more true n = suc n
one_more false n = n

abbrev pub seq_len : Packet → ℕ
seq_len p = one_more p.syn (one_more p.fin (length p.payload))

-- Every segment is numbered from `seq` on, modulo 2 ^ 32, without a gap or an overlap.
abbrev pub IsNumbered : ℕ → List Packet → Type 0
IsNumbered seq [] = Unit {0}
IsNumbered seq (p ∷ packets) = (p.seq ≡ seq) × IsNumbered (wrapping_add seq (seq_len p)) packets

carried :
    (key : FlowKey) (seq ack_number : ℕ) (reads : List Read)
    → payloads (socks_to_tun key seq ack_number reads) ≡ read_bytes reads
unfolding socks_to_tun answer
carried key seq ack_number [] = refl
carried key seq ack_number (read_error ∷ reads) = refl
carried key seq ack_number (chunk [] ∷ reads) = refl
carried key seq ack_number (chunk (b ∷ bytes) ∷ reads) =
    ap (λ t. (b ∷ bytes) ++ t)
      (carried key (wrapping_add seq (length (b ∷ bytes))) ack_number reads)

numbered :
    (key : FlowKey) (seq ack_number : ℕ) (reads : List Read)
    → IsNumbered seq (socks_to_tun key seq ack_number reads)
unfolding socks_to_tun answer
numbered key seq ack_number [] = tt
numbered key seq ack_number (read_error ∷ reads) = (refl, tt)
numbered key seq ack_number (chunk [] ∷ reads) = (refl, tt)
numbered key seq ack_number (chunk (b ∷ bytes) ∷ reads) =
    (refl, numbered key (wrapping_add seq (length (b ∷ bytes))) ack_number reads)

-- The packets that a session sends to its client carry what the proxy sent up to its end or its
-- first error, in order, and their numbers, from the SYN-ACK with number 0 on, have no gap and no
-- overlap, modulo 2 ^ 32.
pub run_tcp_session-IsNumbered :
    (key : FlowKey) (client_initial_seq : ℕ) (reads : List Read)
    → let packets = run_tcp_session key client_initial_seq true reads in
      (payloads packets ≡ read_bytes reads) × IsNumbered 0 packets
run_tcp_session-IsNumbered key client_initial_seq reads =
    unfold run_tcp_session answer in
    (
      carried key (wrapping_add 0 1) (wrapping_add client_initial_seq 1) reads,
      (refl, numbered key (wrapping_add 0 1) (wrapping_add client_initial_seq 1) reads),
    )
