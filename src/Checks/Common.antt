-- ===== src/Checks/Common.antt =====
-- Addresses, frames and the cipher at concrete inputs.
use reliz_protocol.Base.{
  ℕ, ◌≡◌, ◌≢◌, refl, List, [], ◌∷◌, ◌++◌, replicate, arith, inl, ok, err, panic,
}
use reliz_protocol.Base.Bytes.{get_u8}
use reliz_protocol.Base.Utf8.{chars, utf8}
use reliz_protocol.Common.Types.{
  invalid_domain_length, TargetAddr, domain, GhostFrame, IsTarget, IsFrame,
}
use reliz_protocol.Common.Addr
use reliz_protocol.Common.Addr.Laws.{decode-encode, length-encode}
use reliz_protocol.Common.Addr.Total.{decode-ne-panic}
use reliz_protocol.Common.Frame
use reliz_protocol.Common.Frame.Laws.{decode-encode_frame}
use reliz_protocol.Common.Frame.Total.{decode_frame-ne-panic}

abbrev pub site : TargetAddr
site = domain (chars "ex.io") 443

pub site-IsTarget : IsTarget site
unfolding utf8
site-IsTarget = record {
  text = (
    inl (omega arith),
    (inl (omega arith), (inl (omega arith), (inl (omega arith), (inl (omega arith), tt)))),
  );
  not_empty = omega arith;
  short = omega arith;
  port_fits = omega arith;
}

site_bytes : Addr.encode site ≡ ok (3 ∷ 5 ∷ (chars "ex.io" ++ 1 ∷ 187 ∷ []))
unfolding Addr.encode utf8
site_bytes = refl

-- A domain of no characters is encoded, and the decoder refuses its bytes.
empty_domain : Addr.decode (3 ∷ 0 ∷ 1 ∷ 187 ∷ []) ≡ err (invalid_domain_length 0)
unfolding Addr.decode get_u8
empty_domain = refl

decode_addr_run :
    (bs : List ℕ) × (Addr.encode site ≡ ok bs)
    × ((rest : List ℕ) → Addr.decode (bs ++ rest) ≡ ok (site, rest))
decode_addr_run = decode-encode site site-IsTarget

encoded_len_run : 9 ≡ Addr.encoded_len site
encoded_len_run =
    length-encode site (3 ∷ 5 ∷ (chars "ex.io" ++ 1 ∷ 187 ∷ [])) site-IsTarget site_bytes

abbrev hello : GhostFrame
hello = record {
  version = 1;
  user_id = replicate 16 1;
  target = site;
  payload = chars "hello";
  padding = 9 ∷ 9 ∷ [];
}

hello-IsFrame : IsFrame hello
hello-IsFrame = record {
  current = refl;
  id_len = refl;
  id_bytes = omega arith;
  addressed = site-IsTarget;
  payload_fits = omega arith;
  payload_bytes = omega arith;
  padding_fits = omega arith;
  padding_bytes = omega arith;
}

decode-encode_frame_example :
    (bs : List ℕ) × (Frame.encode hello ≡ ok bs)
    × ((rest : List ℕ) → Frame.decode (bs ++ rest) ≡ ok hello)
decode-encode_frame_example = decode-encode_frame hello hello-IsFrame

decode_truncated_run : Addr.decode (3 ∷ 200 ∷ []) ≢ panic
decode_truncated_run = decode-ne-panic (3 ∷ 200 ∷ [])

decode_frame_truncated_run : Frame.decode (1 ∷ 2 ∷ []) ≢ panic
decode_frame_truncated_run = decode_frame-ne-panic (1 ∷ 2 ∷ [])
