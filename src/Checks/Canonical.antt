-- ===== src/Checks/Canonical.antt =====
-- A frame that is decoded from concrete bytes.
use reliz_protocol.Base.{ℕ, ◌≡◌, refl, List, [], ◌∷◌, ◌++◌, replicate, ok, arith}
use reliz_protocol.Base.Bytes.{get_u8, get_u16, copy_to_bytes}
use reliz_protocol.Base.Utf8.{pieces, all_chars, from_utf8}
use reliz_protocol.Common.Types.{GhostFrame}
use reliz_protocol.Common.Addr
use reliz_protocol.Common.Frame
use reliz_protocol.Common.Frame.Canonical.{IsCanonical, decode-IsCanonical}

-- The domain a.b at port 443, two bytes of payload, one of padding, and one byte behind it.
abbrev arrived : List ℕ
arrived =
    1
    ∷ (replicate 16 7
        ++ (3 ∷ 3 ∷ b'a' ∷ b'.' ∷ b'b' ∷ 1 ∷ 187 ∷ 0 ∷ 2 ∷ b'h' ∷ b'i' ∷ 1 ∷ 0 ∷ 9 ∷ []))

decoded : (f : GhostFrame) × (Frame.decode arrived ≡ ok f)
unfolding Frame.decode get_u8 copy_to_bytes Addr.decode get_u16 from_utf8 pieces all_chars
decoded = (_, refl)

decode-IsCanonical_example : IsCanonical arrived decoded.0
decode-IsCanonical_example = decode-IsCanonical arrived decoded.0 (omega arith) decoded.1
