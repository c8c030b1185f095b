-- ===== src/Client/UserId.antt =====
-- `parse_user_id` and `parse_hex_32` of ghost-client/src/tunnel.rs.
use reliz_protocol.Base.{
  true, ℕ, ◌*◌, ◌≡◌, List, length, ◌==◌, if◌then◌else◌, Outcome, ok, err, All, arith,
}
use reliz_protocol.Base.Bytes.{IsByte}
use reliz_protocol.Base.Utf8.{Str, chars, utf8, utf8-ascii}
use reliz_protocol.Base.Hex.{
  hex_encode, hex_pairs, without_dashes, without_dashes-hex_encode, length-hex_encode,
  hex_encode-IsAscii, hex_pairs-hex_encode, hex_pairs_shape,
}
use reliz_protocol.Conn.{Failure, message}

-- Both functions, for ids of `n` bytes: dashes are dropped, and the length is that in bytes.
unfoldable pub parse_hex : ℕ → Str → Outcome Failure (List ℕ)
parse_hex n text =
    let hex = utf8 (without_dashes text) in
    if length hex == 2 * n
    then hex_pairs (message (chars "Invalid hex")) hex
    else err (message (chars "wrong number of hex characters"))

unfoldable pub parse_user_id : Str → Outcome Failure (List ℕ)
unfolding parse_hex
parse_user_id = parse_hex 16

unfoldable pub parse_hex_32 : Str → Outcome Failure (List ℕ)
unfolding parse_hex
parse_hex_32 = parse_hex 32

parse_hex-hex_encode :
    (n : ℕ) (bytes : List ℕ)
    → length bytes ≡ n
    → All IsByte bytes
    → parse_hex n (hex_encode bytes) ≡ ok bytes
parse_hex-hex_encode n bytes len h =
    unfold parse_hex in
    rw
      (
        without_dashes-hex_encode bytes,
        utf8-ascii (hex_encode bytes) (hex_encode-IsAscii bytes h),
        length-hex_encode bytes,
        len,
        same_len n,
      )
      (hex_pairs-hex_encode _ bytes h)
  where
    same_len : (n : ℕ) → (2 * n == 2 * n) ≡ true
    same_len n = ground arith

-- The client reads the sixteen bytes of a user id back from the text that the server makes of
-- them to look them up.
pub parse_user_id-hex_encode :
    (id : List ℕ) → length id ≡ 16 → All IsByte id → parse_user_id (hex_encode id) ≡ ok id
parse_user_id-hex_encode id len h = unfold parse_user_id in parse_hex-hex_encode 16 id len h

-- Whatever text is accepted as a user id gives sixteen bytes.
pub parse_user_id-IsUserId :
    (text : Str) (id : List ℕ) → parse_user_id text ≡ ok id → (length id ≡ 16) × All IsByte id
parse_user_id-IsUserId text id h =
    parsed (utf8 (without_dashes text)) id (unfold parse_user_id in h)
  where
    parsed :
        (hex id : List ℕ)
        → (if length hex == 32
            then hex_pairs (message (chars "Invalid hex")) hex
            else err (message (chars "wrong number of hex characters")))
          ≡ ok id
        → (length id ≡ 16) × All IsByte id
    parsed hex id h = ground (arith, hex_pairs_shape (message (chars "Invalid hex")) hex id)

pub parse_hex_32-hex_encode :
    (bytes : List ℕ)
    → length bytes ≡ 32
    → All IsByte bytes
    → parse_hex_32 (hex_encode bytes) ≡ ok bytes
parse_hex_32-hex_encode bytes len h = unfold parse_hex_32 in parse_hex-hex_encode 32 bytes len h
