-- ===== src/Tun/Processor/Delivery.antt =====
-- From the segments of a flow to the stream of the proxy.
use reliz_protocol.Base.{
  ℕ, ◌≤◌, ◌≡◌, refl, ap, ◌∙◌, List, [], ◌∷◌, ◌++◌, true, false, All, length, length-append, concat,
  arith,
}
use reliz_protocol.Base.Io.{Sink, write_all_lem}
use reliz_protocol.Tun.Session.{FlowKey, data_to_socks}
use reliz_protocol.Tun.Processor.{Segment, Processor}
use reliz_protocol.Tun.Processor.Flow.{
  Event, opened, received, opens, message, flow_run, only, seen_by, run,
}
use reliz_protocol.Tun.Processor.Isolation.{is_open, run-flow_run}
use reliz_protocol.Tunnel.Receive.{extended, extended-nil, extended-append}

-- The messages of a session.
abbrev pub messages : List Event → List (List ℕ)
messages [] = []
messages (opened seq ∷ events) = messages events
messages (received bytes ∷ events) = bytes ∷ messages events

abbrev pub payloads : List Segment → List ℕ
payloads [] = []
payloads (seg ∷ segments) = seg.payload ++ payloads segments

-- The first SYN of a connection, and a segment that only carries data.
abbrev pub IsOpening : Segment → Type 0
IsOpening seg = (seg.header.rst ≡ false) × (opens seg ≡ true)

abbrev pub IsPlain : Segment → Type 0
IsPlain seg = (seg.header.rst ≡ false) × (opens seg ≡ false) × (seg.header.fin ≡ false)

concat-message :
    (bytes : List ℕ) (events : List Event)
    → concat (messages (message bytes ++ events)) ≡ bytes ++ concat (messages events)
concat-message [] events = refl
concat-message (b ∷ bytes) events = refl

flow_run-payloads :
    (segments : List Segment)
    → All IsPlain segments
    → concat (messages (flow_run segments true).1) ≡ payloads segments
unfolding flow_run
flow_run-payloads [] h = refl
flow_run-payloads (seg ∷ segments) h =
    simp (h.0.0, h.0.1, h.0.2)
      (concat-message seg.payload (flow_run segments true).1
        ∙ ap (λ t. seg.payload ++ t) (flow_run-payloads segments h.1))

data_to_socks_lem :
    (pieces : List (List ℕ)) (sink : Sink)
    → length (concat pieces) ≤ sink.room
    → data_to_socks pieces sink ≡ extended sink (concat pieces)
unfolding data_to_socks
data_to_socks_lem [] sink h = extended-nil sink
data_to_socks_lem ([] ∷ pieces) sink h = data_to_socks_lem pieces sink h
data_to_socks_lem ((b ∷ bytes) ∷ pieces) sink h =
    rw (write_all_lem (b ∷ bytes) sink (omega (arith, length-append (b ∷ bytes) (concat pieces)))) (
      data_to_socks_lem pieces (extended sink (b ∷ bytes))
        (omega (arith, length-append (b ∷ bytes) (concat pieces)))
      ∙ extended-append sink (b ∷ bytes) (concat pieces))

-- What a connection of the device sends, from its SYN on and in segments with data only, reaches
-- the stream of the proxy, all of it and in the order in which the segments come, however the
-- segments of other flows are mixed with them, if the flow had no session and the stream takes it.
pub run-delivers :
    (segments : List Segment) (key : FlowKey) (p : Processor) (syn : Segment) (later : List Segment)
    (sink : Sink)
    → only key segments ≡ syn ∷ later
    → IsOpening syn
    → All IsPlain later
    → is_open key p ≡ false
    → length (payloads later) ≤ sink.room
    → data_to_socks (messages (seen_by key (run segments p).1)) sink
      ≡ extended sink (payloads later)
run-delivers segments key p syn later sink mine opening plain closed room =
    ap (λ events. data_to_socks (messages events) sink) seen
    ∙ data_to_socks_lem (messages (flow_run later true).1) sink
        (omega (arith, ap length (flow_run-payloads later plain)))
    ∙ ap (extended sink) (flow_run-payloads later plain)
  where
    first :
        flow_run (syn ∷ later) false
        ≡ ((flow_run later true).0, opened syn.header.sequence_number ∷ (flow_run later true).1)
    first = unfold flow_run in simp (opening.0, opening.1) refl

    seen :
        seen_by key (run segments p).1 ≡ opened syn.header.sequence_number ∷ (flow_run later true).1
    seen =
        (run-flow_run segments key p).1
        ∙ ap (λ o. (flow_run (only key segments) o).1) closed
        ∙ ap (λ t. (flow_run t false).1) mine
        ∙ ap (λ t. t.1) first
