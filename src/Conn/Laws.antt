-- ===== src/Conn/Laws.antt =====
-- Reads and writes that succeed.
use reliz_protocol.Base.{ℕ, ◌-◌, ◌≤◌, ◌≡◌, List, ◌++◌, length, le→ltb, ok}
use reliz_protocol.Base.Io.{Ending, read_exact-append, write_all_lem}
use reliz_protocol.Conn.{Conn, recv, recv_into, send}

-- A connection at which `input` is still to come and `output` was written, with room left.
abbrev pub at : List ℕ → Ending → List ℕ → ℕ → Conn
at input e output room = record {
  input = record { bytes = input; ending = e };
  output = record { written = output; room = room };
}

module _ (e : Ending) (out : List ℕ) (room : ℕ) where
  pub recv_lem :
      (n : ℕ) (xs rest : List ℕ)
      → length xs ≡ n
      → recv n (at (xs ++ rest) e out room) ≡ (ok xs, at rest e out room)
  recv_lem n xs rest h = unfold recv in rw (read_exact-append n xs rest e h)

  pub recv_into_lem :
      (size n : ℕ) (xs rest : List ℕ)
      → n ≤ size
      → length xs ≡ n
      → recv_into size n (at (xs ++ rest) e out room) ≡ (ok xs, at rest e out room)
  recv_into_lem size n xs rest small h =
      unfold recv_into in rw (le→ltb size n small) (recv_lem n xs rest h)

  pub send_lem :
      (bytes input : List ℕ)
      → length bytes ≤ room
      → send bytes (at input e out room) ≡ (ok tt, at input e (out ++ bytes) (room - length bytes))
  send_lem bytes input h =
      unfold send in rw (write_all_lem bytes (record { written = out; room = room }) h)
