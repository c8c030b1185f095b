-- ===== src/Checks/Duplex.antt =====
-- Two ends of a session that run at the same time.
use reliz_protocol.Base.{◌++◌, ◌≡◌, refl, List, [], ◌∷◌, arith}
use reliz_protocol.Base.Io.{Read, chunk}
use reliz_protocol.Base.Utf8.{chars}
use reliz_protocol.Tunnel.Relay.{fresh}
use reliz_protocol.Tunnel.Duplex.{World, Reach, here, later, near_moves, sends, sent_by}
use reliz_protocol.Tunnel.Duplex.Prefix.{beginning, IsAccounted, Reach-IsAccounted}
use reliz_protocol.Tunnel.Send.Loop.{read_bytes}
use reliz_protocol.Tunnel.Duplex.Drain.{Reach-drains}
use reliz_protocol.Checks.Instances.{steady, transparent}
use reliz_protocol.Checks.Tunnel.{the_cipher, user, padded, user-IsSession, reads}

abbrev answer : List Read
answer = chunk (chars "OK") ∷ []

abbrev start : World steady transparent the_cipher user
start =
    beginning steady transparent the_cipher user reads 0 (fresh 100) answer 5 (fresh 100) 100000
      100000

-- The near end has sent its first piece.
abbrev asked : World steady transparent the_cipher user
asked =
    let r =
      sent_by steady transparent the_cipher user padded start.near (chars "GET")
        (chunk (chars " /") ∷ chunk [] ∷ []) start.outbound in
    record start { near = r.0; outbound = r.1 }

asked-Reach : Reach steady transparent the_cipher user padded padded start asked
unfolding beginning
asked-Reach = later here (near_moves _ (sends b'G' (chars "ET") _ refl refl refl) refl)

Reach-IsAccounted_example :
    IsAccounted steady transparent the_cipher user
      (chars "GET /")
      asked.far.application
      asked.outbound
      asked.near.reads
    × IsAccounted steady transparent the_cipher user
        (chars "OK")
        asked.near.application
        asked.inbound
        asked.far.reads
Reach-IsAccounted_example =
    Reach-IsAccounted steady transparent the_cipher user padded padded reads answer 0 5 (fresh 100)
      (fresh 100) 100000 100000 asked user-IsSession user-IsSession (omega arith) (omega arith)
      (omega arith) (omega arith) (omega arith) (omega arith) asked-Reach

Reach-drains_example :
    (v : World steady transparent the_cipher user) × Reach steady transparent the_cipher user padded
      padded asked v
    × (v.outbound.written ≡ [])
    × (v.near ≡ asked.near)
    × (v.far.application.written ++ read_bytes v.near.reads ≡ chars "GET /")
unfolding beginning
Reach-drains_example =
    Reach-drains steady transparent the_cipher user padded padded reads answer 0 5 (fresh 100)
      (fresh 100) 100000 100000 asked user-IsSession user-IsSession (omega arith) (omega arith)
      (omega arith) (omega arith) (omega arith) (omega arith) asked-Reach refl
