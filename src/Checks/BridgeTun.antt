-- ===== src/Checks/BridgeTun.antt =====
-- The TUN tasks of the bridge at concrete calls.
use reliz_protocol.Base.{◌<◌, ◌≡◌, refl, List, [], ◌∷◌, true, arith}
use reliz_protocol.Bridge.Tun.{
  pos, negsuc, launched, start_tun, stop_tun, start, stop, Call, call, calls,
}
use reliz_protocol.Bridge.Tun.Lost.{IsForgotten, second_start_lem}
use reliz_protocol.Bridge.Tun.Tidy.{stop_tun-reaches}

abbrev turns : List Call
turns = start (pos 5) ∷ start (negsuc 0) ∷ stop ∷ start (pos 6) ∷ []

second_start_lem_example :
    IsForgotten
      (calls turns launched).next_task
      (calls (stop ∷ stop ∷ []) (start_tun (pos 8) (start_tun (pos 7) (calls turns launched)).1).1)
second_start_lem_example = second_start_lem turns (stop ∷ stop ∷ []) 7 8

turns_spawn : 1 < (calls turns launched).next_task
unfolding calls call start_tun stop_tun
turns_spawn = omega arith

stop_tun-reaches_example : (stop_tun (calls turns launched)).1.aborted 1 ≡ true
stop_tun-reaches_example = stop_tun-reaches turns (refl, (refl, tt)) 1 turns_spawn
