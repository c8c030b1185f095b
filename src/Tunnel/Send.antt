-- ===== src/Tunnel/Send.antt =====
-- What `send_frame` writes: a message that carries what was read.
pub mod Loop
use reliz_protocol.Base.{
  ℕ, ◌+◌, ◌*◌, ◌<◌, ◌≤◌, ◌≡◌, refl, sym, ap, subst, ◌∙◌, List, [], ◌∷◌, ◌++◌, append-nil, length,
  length-append, arith, true, Bool-cases, inl, inr, All, none, some, min,
}
use reliz_protocol.Base.{ok}
use reliz_protocol.Base.Random.{Rng}
use reliz_protocol.Base.Bytes.{IsByte, be16, as_u16}
use reliz_protocol.Base.Io.{Read, chunk, read_error, Sink, write_all_lem}
use reliz_protocol.Common.Types.{
  GhostFrame, TargetAddr, no_addr, ip_v4, ip_v6, domain, IsFrame, IsTarget, user_id_len,
}
use reliz_protocol.Common.Addr.Laws.{encoding, encode-encoding, length-encode}
use reliz_protocol.Common.Addr.{encoded_len}
use reliz_protocol.Common.Frame
use reliz_protocol.Common.Frame.Laws.{frame_bytes, encode-frame_bytes, decode-frame_bytes}
use reliz_protocol.Crypto.{Aead, GhostCipher, encrypt, decrypt}
use reliz_protocol.Crypto.Laws.{decrypt-encrypt, encrypted_size_lem}
use reliz_protocol.Tunnel.{
  Stop, finished, read_failed, waiting, Padding, Progress, write_message, make_frame, send_frame,
  send_loop,
}
use reliz_protocol.Tunnel.Receive.{extended, extended-nil, extended-append}
use reliz_protocol.Tunnel.Wire.{Carries, nothing, message}

-- A frame of the tunnel encrypted takes at most this many bytes on the wire, its length included.
abbrev pub max_message : ℕ
max_message = 8756

-- What the types of the configuration and of the user id give.
pub record IsSession (user_id : List ℕ) (pad : Padding) : Type 0 where
  pub id_len : length user_id ≡ user_id_len
  pub id_bytes : All IsByte user_id
  pub pad_u8 : pad.max_padding_len ≤ 255

-- What one `read` into a buffer of 8192 bytes gives.
abbrev pub IsRead : Read → Type 0
IsRead (chunk bs) = (length bs ≤ 8192) × All IsByte bs
IsRead read_error = Unit {0}

encoding-le : (t : TargetAddr) → IsTarget t → length (encoding t) ≤ 259
encoding-le t h =
    omega (arith, length-encode t (encoding t) h (encode-encoding t h), encoded_len-le t h)
  where
    encoded_len-le : (t : TargetAddr) → IsTarget t → encoded_len t ≤ 259
    encoded_len-le no_addr h = unfold encoded_len in omega arith
    encoded_len-le (ip_v4 a) h = unfold encoded_len in omega arith
    encoded_len-le (ip_v6 a) h = unfold encoded_len in omega arith
    encoded_len-le (domain d p) h = unfold encoded_len in omega (arith, h.short)

length-frame_bytes :
    (f : GhostFrame)
    → length (frame_bytes f)
      ≡ 4 + length f.user_id + length (encoding f.target) + length f.payload + length f.padding
length-frame_bytes f = simp length-append (omega arith)

write_message_lem :
    (enc : List ℕ) (sink : Sink)
    → length enc < 65536
    → length enc + 2 ≤ sink.room
    → write_message enc sink ≡ (extended sink (be16 (length enc) ++ enc), true)
write_message_lem enc sink small room =
    unfold write_message in
    rw
      (
        as_u16_lem,
        write_all_lem (be16 (length enc)) sink (omega arith),
        write_all_lem enc (extended sink (be16 (length enc))) (omega arith),
      )
      (ap (λ t. (t, true)) (extended-append sink (be16 (length enc)) enc))
  where
    as_u16_lem : as_u16 (length enc) ≡ length enc
    as_u16_lem = omega arith

-- The frame that was sent, and what the other end reads from the bytes that were written.
pub record IsSent (aead : Aead) (cipher : GhostCipher) (user_id : List ℕ) (target : TargetAddr)
    (payload : List ℕ) (before after : Sink) : Type 0 where
  pub frame : GhostFrame
  pub plaintext : List ℕ
  pub encrypted : List ℕ
  pub written : after ≡ extended before (be16 (length encrypted) ++ encrypted)
  pub bounded : length encrypted + 2 ≤ max_message
  pub opens : decrypt aead cipher encrypted ≡ ok plaintext
  pub decodes : Frame.decode plaintext ≡ ok frame
  pub same_id : frame.user_id ≡ user_id
  pub same_target : frame.target ≡ target
  pub same_payload : frame.payload ≡ payload

module _ (rng : Rng) (aead : Aead) (cipher : GhostCipher) (user_id : List ℕ) (pad : Padding)
    (session : IsSession user_id pad) where
  open rng use {State}

  -- What `make_frame` builds from a target and a payload.
  record IsMade (f : GhostFrame) (target : TargetAddr) (payload : List ℕ) : Type 0 where
    valid : IsFrame f
    made_id : f.user_id ≡ user_id
    made_target : f.target ≡ target
    made_payload : f.payload ≡ payload

  module _ (target : TargetAddr) (payload : List ℕ) (addressed : IsTarget target)
      (len : length payload ≤ 8192) (bytes : All IsByte payload) where
    new-IsMade : IsMade (Frame.new user_id target payload) target payload
    unfolding Frame.new
    new-IsMade = record {
      valid = record {
        current = refl;
        id_len = session.id_len;
        id_bytes = session.id_bytes;
        addressed = addressed;
        payload_fits = omega arith;
        payload_bytes = bytes;
        padding_fits = omega arith;
        padding_bytes = tt;
      };
      made_id = refl;
      made_target = refl;
      made_payload = refl;
    }

    padded-IsMade :
        (s : State)
        → IsMade
            (Frame.with_random_padding rng pad.max_padding_len
              (Frame.new user_id target payload)
              s).0
            target
            payload
    unfolding Frame.with_random_padding
    padded-IsMade s =
        let (pad_len, s1) = rng.gen_range 0 (min pad.max_padding_len 255) s in
        let made = new-IsMade in
        record {
          valid = record {
            current = made.valid.current;
            id_len = made.valid.id_len;
            id_bytes = made.valid.id_bytes;
            addressed = made.valid.addressed;
            payload_fits = made.valid.payload_fits;
            payload_bytes = made.valid.payload_bytes;
            padding_fits = omega (
              arith,
              rng.length-fill pad_len s1,
              rng.gen_range_bounds 0 (min pad.max_padding_len 255) s (omega arith),
            );
            padding_bytes = rng.fill-IsByte pad_len s1;
          };
          made_id = made.made_id;
          made_target = made.made_target;
          made_payload = made.made_payload;
        }

    make_frame-IsMade :
        (s : State)
        → IsMade (make_frame rng aead cipher user_id pad target payload s).0 target payload
    make_frame-IsMade s = elim (Bool-cases pad.enable_padding) [
      | inl e ↦ unfold make_frame in rw e (padded-IsMade s)
      | inr e ↦ unfold make_frame in rw e new-IsMade
    ]

    send_frame_lem :
        (sink : Sink) (s : State) (plain enc : List ℕ)
        → let (f, s1) = make_frame rng aead cipher user_id pad target payload s in
          Frame.encode f ≡ ok plain
          → (encrypt rng aead cipher plain s1).0 ≡ ok enc
          → length enc < 65536
          → length enc + 2 ≤ sink.room
          → send_frame rng aead cipher user_id pad target payload sink s ≡ record {
            sink = extended sink (be16 (length enc) ++ enc);
            state = (encrypt rng aead cipher plain s1).1;
            stop = none;
          }
    send_frame_lem sink s plain enc encodes seals small room =
        unfold send_frame in rw (encodes, seals, write_message_lem enc sink small room)

    -- One frame is written whole, and the other end reads it back.
    pub send_frame-IsSent :
        (sink : Sink) (s : State)
        → max_message ≤ sink.room
        → let p = send_frame rng aead cipher user_id pad target payload sink s in
          (p.stop ≡ none) × IsSent aead cipher user_id target payload sink p.sink
    send_frame-IsSent sink s room =
        let (f, s1) = make_frame rng aead cipher user_id pad target payload s in
        let made = make_frame-IsMade s in
        let plain = frame_bytes f in
        let size : length plain ≤ 8726 = omega (
          arith,
          length-frame_bytes f,
          encoding-le f.target made.valid.addressed,
          made.valid.id_len,
          made.valid.padding_fits,
          ap length made.made_payload,
          len,
        ) in
        let (enc, seals, enc_len, opens) =
          decrypt-encrypt rng aead cipher plain s1 (omega (arith, aead.frames_fit)) in
        let enc_size : length enc + 2 ≤ max_message =
          omega (arith, size, enc_len, encrypted_size_lem (length plain)) in
        let e =
          send_frame_lem sink s plain enc (encode-frame_bytes f made.valid) seals
            (omega (arith, enc_size)) (omega (arith, enc_size)) in
        (
          ap (λ p. p.stop) e,
          record {
            frame = f;
            plaintext = plain;
            encrypted = enc;
            written = ap (λ p. p.sink) e;
            bounded = enc_size;
            opens = opens;
            decodes = rw (← append-nil plain) (decode-frame_bytes f [] made.valid);
            same_id = made.made_id;
            same_target = made.made_target;
            same_payload = made.made_payload;
          },
        )
