-- ===== src/Common/Frame/Laws.antt =====
-- How the encoding and the decoding of frames fit together.
use reliz_protocol.Base.{
  ℕ, ◌≡◌, refl, ◌∙◌, List, [], ◌∷◌, ◌++◌, length, length-append, append_assoc, arith, lt→ltb,
  le→ltb, leb-of_le, suc-not_short,
}
use reliz_protocol.Base.{ok}
use reliz_protocol.Base.Bytes.{be16, as_u8, as_u16, get_u8, copy_to_bytes-append, get_u16-be16}
use reliz_protocol.Common.Types.{GhostFrame, IsFrame, user_id_len, protocol_version}
use reliz_protocol.Common.Addr.Laws.{encoding, encode-encoding, decode-encoding}
use reliz_protocol.Common.Frame.{
  encode, decode, check_version, decode_user, decode_rest, decode_payload, decode_padding,
  read_payload, read_padding,
}

-- The bytes of a frame.
abbrev pub frame_bytes : GhostFrame → List ℕ
frame_bytes f =
    f.version
    ∷ (f.user_id
        ++ (encoding f.target
            ++ (be16 (length f.payload) ++ (f.payload ++ (length f.padding ∷ f.padding)))))

pub encode-frame_bytes : (f : GhostFrame) → IsFrame f → encode f ≡ ok (frame_bytes f)
encode-frame_bytes f h = unfold encode in rw (encode-encoding f.target h.addressed, small8, small16)
  where
    small8 : as_u8 (length f.padding) ≡ length f.padding
    small8 = omega (arith, h.padding_fits)

    small16 : as_u16 (length f.payload) ≡ length f.payload
    small16 = omega (arith, h.payload_fits)

read_padding_lem : (xs rest : List ℕ) → read_padding (length xs) (xs ++ rest) ≡ ok xs
read_padding_lem [] rest = unfold read_padding in ground arith
read_padding_lem (x ∷ xs) rest =
    unfold read_padding in
    rw (
      lt→ltb 0 (length (x ∷ xs)) (omega arith),
      leb-of_le (length (x ∷ xs)) (length ((x ∷ xs) ++ rest))
          (omega (arith, length-append xs rest)),
      copy_to_bytes-append (length (x ∷ xs)) (x ∷ xs) rest refl,
    )

decode_padding_lem : (xs rest : List ℕ) → decode_padding (length xs ∷ (xs ++ rest)) ≡ ok xs
decode_padding_lem xs rest =
    unfold decode_padding get_u8 in rw suc-not_short (read_padding_lem xs rest)

decode_payload_lem :
    (xs rest : List ℕ) → decode_payload (be16 (length xs) ++ (xs ++ rest)) ≡ ok (xs, rest)
decode_payload_lem xs rest =
    unfold decode_payload in
    rw
      (
        le→ltb (length (be16 (length xs) ++ (xs ++ rest))) 2 (omega arith),
        get_u16-be16 (length xs) (xs ++ rest),
      )
      (unfold read_payload in
        rw (le→ltb (length (xs ++ rest)) (length xs) (omega (arith, length-append xs rest)))
          (copy_to_bytes-append (length xs) xs rest refl))

decode_rest_lem :
    (f : GhostFrame) (rest : List ℕ)
    → IsFrame f
    → decode_rest f.version f.user_id (
        encoding f.target
        ++ (be16 (length f.payload) ++ (f.payload ++ (length f.padding ∷ (f.padding ++ rest)))))
      ≡ ok f
decode_rest_lem f rest h =
    unfold decode_rest in
    rw (
      decode-encoding f.target
          (be16 (length f.payload) ++ (f.payload ++ (length f.padding ∷ (f.padding ++ rest))))
          h.addressed,
      decode_payload_lem f.payload (length f.padding ∷ (f.padding ++ rest)),
      decode_padding_lem f.padding rest,
    )

decode_user_lem :
    (version : ℕ) (id buf : List ℕ)
    → length id ≡ user_id_len
    → decode_user version (id ++ buf) ≡ decode_rest version id buf
decode_user_lem version id buf h =
    unfold decode_user in
    rw (
      le→ltb (length (id ++ buf)) 16 (omega (arith, length-append id buf)),
      copy_to_bytes-append 16 id buf h,
    )

check_version_lem :
    (v : ℕ) (buf : List ℕ) → v ≡ protocol_version → check_version v buf ≡ decode_user v buf
check_version_lem v buf h = unfold check_version in ground arith

append_inner :
    (f : GhostFrame) (rest : List ℕ)
    → frame_bytes f ++ rest
      ≡ f.version
        ∷ (f.user_id
            ++ (encoding f.target
                ++ (be16 (length f.payload)
                    ++ (f.payload ++ (length f.padding ∷ (f.padding ++ rest))))))
append_inner f rest = simp append_assoc

pub decode-frame_bytes :
    (f : GhostFrame) (rest : List ℕ) → IsFrame f → decode (frame_bytes f ++ rest) ≡ ok f
decode-frame_bytes f rest h = rw (append_inner f rest) (
    unfold decode get_u8 in
    rw suc-not_short (
      check_version_lem f.version _ h.current
      ∙ decode_user_lem f.version f.user_id _ h.id_len
      ∙ decode_rest_lem f rest h))

-- The bytes of a well-formed frame decode to that frame, whatever follows them.
pub decode-encode_frame :
    (f : GhostFrame)
    → IsFrame f
    → (bs : List ℕ) × (encode f ≡ ok bs) × ((rest : List ℕ) → decode (bs ++ rest) ≡ ok f)
decode-encode_frame f h =
    (frame_bytes f, encode-frame_bytes f h, λ rest. decode-frame_bytes f rest h)
