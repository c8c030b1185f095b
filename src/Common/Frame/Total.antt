-- ===== src/Common/Frame/Total.antt =====
-- Frames at their limits: the decoder on any bytes, and the encoder on any frame.
use reliz_protocol.Base.{ℕ, ◌+◌, ◌*◌, ◌≢◌, List, [], ◌∷◌, take, drop, arith}
use reliz_protocol.Base.{panic}
use reliz_protocol.Base.Bytes.{get_u8, get_u16, copy_to_bytes_lem}
use reliz_protocol.Common.Types.{ProtocolError}
use reliz_protocol.Common.Addr
use reliz_protocol.Common.Addr.Total
use reliz_protocol.Common.Frame.{
  decode, check_version, decode_user, decode_rest, decode_payload, decode_padding, read_payload,
}

decode_padding-ne-panic : (buf : List ℕ) → decode_padding buf ≢ panic
unfolding decode_padding get_u8
decode_padding-ne-panic [] = ground arith
decode_padding-ne-panic (n ∷ buf) = ground (arith, copy_to_bytes_lem {E = ProtocolError} n buf)

read_payload-ne-panic : (n : ℕ) (buf : List ℕ) → read_payload n buf ≢ panic
unfolding read_payload
read_payload-ne-panic n buf = ground (arith, copy_to_bytes_lem {E = ProtocolError} n buf)

decode_payload-ne-panic : (buf : List ℕ) → decode_payload buf ≢ panic
unfolding decode_payload get_u16
decode_payload-ne-panic [] = ground arith
decode_payload-ne-panic (a ∷ []) = ground arith
decode_payload-ne-panic (a ∷ b ∷ buf) = ground (arith, read_payload-ne-panic (a * 256 + b) buf)

decode_rest-ne-panic : (v : ℕ) (id buf : List ℕ) → decode_rest v id buf ≢ panic
unfolding decode_rest
decode_rest-ne-panic v id buf =
    grind (arith, Addr.Total.decode-ne-panic, decode_payload-ne-panic, decode_padding-ne-panic)

-- Whatever the bytes, `decode` returns a frame or an error: no read runs past the buffer.
pub decode_frame-ne-panic : (buf : List ℕ) → decode buf ≢ panic
unfolding decode check_version decode_user get_u8
decode_frame-ne-panic [] = ground arith
decode_frame-ne-panic (v ∷ buf) = ground (
  arith,
  copy_to_bytes_lem {E = ProtocolError} 16 buf,
  decode_rest-ne-panic v (take 16 buf) (drop 16 buf),
)
