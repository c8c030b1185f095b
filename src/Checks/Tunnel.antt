-- ===== src/Checks/Tunnel.antt =====
-- The cipher and the loops at concrete inputs.
use reliz_protocol.Base.{ℕ, ◌≡◌, refl, List, [], ◌∷◌, some, true, length, replicate, arith, ok}
use reliz_protocol.Base.Io.{Read, chunk, closed}
use reliz_protocol.Base.Utf8.{chars}
use reliz_protocol.Crypto.{GhostCipher, encrypt, decrypt, encrypted_size}
use reliz_protocol.Crypto.Laws.{decrypt-encrypt}
use reliz_protocol.Tunnel.{Padding, finished, send_loop, receive_loop}
use reliz_protocol.Tunnel.Receive.{extended}
use reliz_protocol.Tunnel.Send.{IsSession}
use reliz_protocol.Tunnel.Relay.{fresh, relay}
use reliz_protocol.Checks.Instances.{steady, transparent}

abbrev pub the_cipher : GhostCipher
the_cipher = record { key = replicate 32 1 }

decrypt-encrypt_example :
    (bytes : List ℕ) × ((encrypt steady transparent the_cipher (chars "hi") 0).0 ≡ ok bytes)
    × (length bytes ≡ encrypted_size 2)
    × (decrypt transparent the_cipher bytes ≡ ok (chars "hi"))
decrypt-encrypt_example = decrypt-encrypt steady transparent the_cipher (chars "hi") 0 (omega arith)

abbrev pub user : List ℕ
user = replicate 16 1

abbrev pub padded : Padding
padded = record { enable_padding = true; max_padding_len = 64 }

pub user-IsSession : IsSession user padded
user-IsSession = record { id_len = refl; id_bytes = omega arith; pad_u8 = omega arith }

abbrev pub reads : List Read
reads = chunk (chars "GET") ∷ chunk (chars " /") ∷ chunk [] ∷ []

relay_run :
    let p = send_loop steady transparent the_cipher user padded reads (fresh 100000) 0 in
    (p.stop ≡ some finished)
    × (receive_loop transparent the_cipher
          (record { bytes = p.sink.written; ending = closed })
          (fresh 100)
        ≡ (extended (fresh 100) (chars "GET /"), finished))
relay_run =
    relay steady transparent the_cipher user padded reads 0 100000 closed (fresh 100) user-IsSession
      (omega arith) (omega arith) (omega arith)
