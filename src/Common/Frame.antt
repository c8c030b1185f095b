-- ===== src/Common/Frame.antt =====
-- `GhostFrame`: its construction, padding, encoding and decoding (ghost-common/src/lib.rs).
pub mod Laws
pub mod Canonical
pub mod Total
use reliz_protocol.Base.{
  ℕ, ◌+◌, ◌<◌, ◌≤◌, ◌≡◌, List, [], ◌∷◌, ◌++◌, Bool, ◌&&◌, length, ltb, leb, ◌==◌, min,
  if◌then◌else◌, All, not,
}
use reliz_protocol.Base.{Outcome, ok, err, ◌>>=◌, expect}
use reliz_protocol.Base.Bytes.{IsByte, as_u8, as_u16, be16, get_u8, get_u16, copy_to_bytes}
use reliz_protocol.Base.Random.{Rng}
use reliz_protocol.Common.Types.{
  ProtocolError, buffer_underflow, invalid_version, TargetAddr, GhostFrame, protocol_version,
  user_id_len, max_padding_len,
}
use reliz_protocol.Common.Addr

unfoldable pub new : List ℕ → TargetAddr → List ℕ → GhostFrame
new user_id target payload = record {
  version = protocol_version;
  user_id = user_id;
  target = target;
  payload = payload;
  padding = [];
}

-- The random generator is `rand`'s: its state is threaded through both of its calls.
module _ (rng : Rng) where
  open rng use {State, gen_range, fill}

  unfoldable pub with_random_padding : ℕ → GhostFrame → State → GhostFrame × State
  with_random_padding max_len frame s =
      let (pad_len, s1) = gen_range 0 (min max_len max_padding_len) s in
      let (pad, s2) = fill pad_len s1 in (record frame { padding = pad }, s2)

-- `expect`: an address with no encoding panics.
unfoldable pub encode : GhostFrame → Outcome ProtocolError (List ℕ)
encode f = do
  addr ← expect (Addr.encode f.target)
  ok (
      f.version
      ∷ (f.user_id
          ++ (addr
              ++ (be16 (as_u16 (length f.payload))
                  ++ (f.payload ++ (as_u8 (length f.padding) ∷ f.padding))))))

-- A padding that the buffer does not hold is left out.
read_padding : ℕ → List ℕ → Outcome ProtocolError (List ℕ)
read_padding padding_len buf =
    if ltb 0 padding_len && leb padding_len (length buf)
    then (do (padding, _) ← copy_to_bytes padding_len buf; ok padding)
    else ok []

decode_padding : List ℕ → Outcome ProtocolError (List ℕ)
unfolding read_padding
decode_padding buf =
    if ltb (length buf) 1
    then err (buffer_underflow 1 (length buf))
    else do (padding_len, buf1) ← get_u8 buf; read_padding padding_len buf1

read_payload : ℕ → List ℕ → Outcome ProtocolError (List ℕ × List ℕ)
read_payload payload_len buf =
    if ltb (length buf) payload_len
    then err (buffer_underflow payload_len (length buf))
    else copy_to_bytes payload_len buf

decode_payload : List ℕ → Outcome ProtocolError (List ℕ × List ℕ)
unfolding read_payload
decode_payload buf =
    if ltb (length buf) 2
    then err (buffer_underflow 2 (length buf))
    else do (payload_len, buf1) ← get_u16 buf; read_payload payload_len buf1

-- From the target address on.
decode_rest : ℕ → List ℕ → List ℕ → Outcome ProtocolError GhostFrame
unfolding decode_payload decode_padding
decode_rest version user_id buf = do
  (target, buf1) ← Addr.decode buf
  (payload, buf2) ← decode_payload buf1
  padding ← decode_padding buf2
  ok (record {
    version = version;
    user_id = user_id;
    target = target;
    payload = payload;
    padding = padding;
  })

decode_user : ℕ → List ℕ → Outcome ProtocolError GhostFrame
unfolding decode_rest
decode_user version buf =
    if ltb (length buf) user_id_len
    then err (buffer_underflow user_id_len (length buf))
    else do (user_id, buf1) ← copy_to_bytes user_id_len buf; decode_rest version user_id buf1

check_version : ℕ → List ℕ → Outcome ProtocolError GhostFrame
unfolding decode_user
check_version version buf =
    if version == protocol_version
    then decode_user version buf
    else err (invalid_version protocol_version version)

unfoldable pub decode : List ℕ → Outcome ProtocolError GhostFrame
unfolding check_version
decode buf =
    if ltb (length buf) 1
    then err (buffer_underflow 1 0)
    else do (version, buf1) ← get_u8 buf; check_version version buf1
