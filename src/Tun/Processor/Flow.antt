-- ===== src/Tun/Processor/Flow.antt =====
-- What a flow is promised: its own segments drive it, whatever other flows do.
use reliz_protocol.Base.{ℕ, List, [], ◌∷◌, ◌++◌, Bool, true, false, not, ◌&&◌, if◌then◌else◌}
use reliz_protocol.Tun.Session.{FlowKey, same_flow}
use reliz_protocol.Tun.Processor.{Segment, Processor, Effect, spawned, sent, key_of, handle_tcp}

-- What a flow's session sees: it is opened with the client's number, and receives messages.
pub data Event : Type 0 where
  opened : ℕ → Event
  received : List ℕ → Event

abbrev pub message : List ℕ → List Event
message [] = []
message (b ∷ bytes) = received (b ∷ bytes) ∷ []

-- A segment that opens a flow, and a reset.
abbrev pub opens : Segment → Bool
opens seg = seg.header.syn && not seg.header.ack

abbrev closed_step : Segment → Bool × List Event
closed_step seg =
    if seg.header.rst
    then (false, [])
    else if opens seg
    then (true, opened seg.header.sequence_number ∷ [])
    else (false, [])

abbrev open_step : Segment → Bool × List Event
open_step seg =
    if seg.header.rst
    then (false, [])
    else if opens seg
    then (true, [])
    else if seg.header.fin
    then (false, received [] ∷ [])
    else (true, message seg.payload)

-- One flow by itself: whether it is open, and what its session sees.
abbrev pub flow_step : Segment → Bool → Bool × List Event
flow_step seg false = closed_step seg
flow_step seg true = open_step seg

unfoldable pub flow_run : List Segment → Bool → Bool × List Event
flow_run [] is_open = (is_open, [])
flow_run (seg ∷ segments) is_open =
    let (is_open1, events) = flow_step seg is_open in
    let (is_open2, more) = flow_run segments is_open1 in (is_open2, events ++ more)

-- The segments of one flow.
unfoldable pub only : FlowKey → List Segment → List Segment
only key [] = []
only key (seg ∷ segments) =
    let rest = only key segments in if same_flow (key_of seg) key then seg ∷ rest else rest

-- What the session of one flow sees of the processor's effects.
unfoldable pub seen_by : FlowKey → List Effect → List Event
seen_by key [] = []
seen_by key (spawned k seq tx ip port ∷ effects) =
    let rest = seen_by key effects in if same_flow k key then opened seq ∷ rest else rest
seen_by key (sent k tx bytes ∷ effects) =
    let rest = seen_by key effects in if same_flow k key then received bytes ∷ rest else rest

-- All segments, in the order in which they come.
unfoldable pub run : List Segment → Processor → Processor × List Effect
run [] p = (p, [])
run (seg ∷ segments) p =
    let (p1, effects) = handle_tcp seg p in
    let (p2, more) = run segments p1 in (p2, effects ++ more)
