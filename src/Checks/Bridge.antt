-- ===== src/Checks/Bridge.antt =====
-- The bridge with one proxy.
use reliz_protocol.Base.{◌≡◌, refl, false}
use reliz_protocol.Bridge.{Bridge, Reach, idle, connected, gone, serving, stop_proxy, launched}
use reliz_protocol.Bridge.Honesty.{failed_bind_lem}
use reliz_protocol.Bridge.Orphan.{second_proxy_lem}

failed_bind_lem_example :
    (v : Bridge) × Reach launched v
    × (v.caller ≡ idle)
    × (v.status ≡ connected)
    × (v.signalled 0 ≡ false)
    × (v.aborted 0 ≡ false)
    × (v.phases 0 ≡ gone)
    × (v.running ≡ false)
failed_bind_lem_example = failed_bind_lem launched refl refl refl refl

second_proxy_lem_example :
    (v : Bridge) × Reach launched v
    × (v.caller ≡ idle)
    × (v.phases 1 ≡ serving)
    × (v.aborted 1 ≡ false)
    × ((stop_proxy v).aborted 1 ≡ false)
second_proxy_lem_example = second_proxy_lem launched refl refl refl
