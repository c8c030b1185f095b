-- ===== src/Tunnel/Send/Loop.antt =====
-- What the sending loop writes: one message for each chunk that it reads.
use reliz_protocol.Base.{
  ℕ, ◌*◌, ◌≤◌, ◌≡◌, refl, sym, ap, subst, ◌∙◌, List, [], ◌∷◌, ◌++◌, length, length-append, arith,
  All, none, some,
}
use reliz_protocol.Base.Random.{Rng}
use reliz_protocol.Base.Bytes.{be16}
use reliz_protocol.Base.Io.{Read, chunk, read_error, Sink}
use reliz_protocol.Common.Types.{no_addr}
use reliz_protocol.Crypto.{Aead, GhostCipher}
use reliz_protocol.Tunnel.{
  Stop, finished, read_failed, waiting, Padding, Progress, send_frame, send_loop,
}
use reliz_protocol.Tunnel.Receive.{extended, extended-nil, extended-append}
use reliz_protocol.Tunnel.Wire.{Carries, nothing, message}
use reliz_protocol.Tunnel.Send.{IsSession, IsRead, max_message, send_frame-IsSent}

-- What the reads give up to the end of the stream or the first error, and how they end.
abbrev pub read_bytes : List Read → List ℕ
read_bytes [] = []
read_bytes (read_error ∷ rs) = []
read_bytes (chunk [] ∷ rs) = []
read_bytes (chunk (b ∷ bs) ∷ rs) = (b ∷ bs) ++ read_bytes rs

abbrev pub read_end : List Read → Stop
read_end [] = waiting
read_end (read_error ∷ rs) = read_failed
read_end (chunk [] ∷ rs) = finished
read_end (chunk (b ∷ bs) ∷ rs) = read_end rs

module _ (rng : Rng) (aead : Aead) (cipher : GhostCipher) (user_id : List ℕ) (pad : Padding)
    (session : IsSession user_id pad) where
  open rng use {State}

  -- What the loop writes, when every read fits its buffer and the connection takes what is written.
  pub record IsStream (reads : List Read) (before : Sink) (p : Progress State) : Type 0 where
    pub wire : List ℕ
    pub written : p.sink ≡ extended before wire
    pub carries : Carries aead cipher wire (read_bytes reads)
    pub bounded : length wire ≤ max_message * length reads
    pub ended : p.stop ≡ some (read_end reads)

  quiet :
      (reads : List Read) (sink : Sink) (s : State) (r : Stop)
      → read_bytes reads ≡ []
      → read_end reads ≡ r
      → IsStream reads sink (record { sink = sink; state = s; stop = some r })
  quiet reads sink s r e d = record {
    wire = [];
    written = extended-nil sink;
    carries = subst (Carries aead cipher []) (sym e) nothing;
    bounded = omega arith;
    ended = ap some (sym d);
  }

  loop_step :
      (b : ℕ) (bs : List ℕ) (rs : List Read) (sink : Sink) (s : State)
      → let p = send_frame rng aead cipher user_id pad no_addr (b ∷ bs) sink s in
        p.stop ≡ none
        → send_loop rng aead cipher user_id pad (chunk (b ∷ bs) ∷ rs) sink s
          ≡ send_loop rng aead cipher user_id pad rs p.sink p.state
  unfolding send_loop
  loop_step b bs rs sink s e = rw (e, send_loop)

  pub send_loop-IsStream :
      (reads : List Read) (sink : Sink) (s : State)
      → All IsRead reads
      → max_message * length reads ≤ sink.room
      → IsStream reads sink (send_loop rng aead cipher user_id pad reads sink s)
  send_loop-IsStream [] sink s h room = unfold send_loop in quiet [] sink s waiting refl refl
  send_loop-IsStream (read_error ∷ rs) sink s h room =
      unfold send_loop in quiet (read_error ∷ rs) sink s read_failed refl refl
  send_loop-IsStream (chunk [] ∷ rs) sink s h room =
      unfold send_loop in quiet (chunk [] ∷ rs) sink s finished refl refl
  send_loop-IsStream (chunk (b ∷ bs) ∷ rs) sink s h room =
      let (goes_on, one) =
        send_frame-IsSent rng aead cipher user_id pad session no_addr (b ∷ bs) tt h.0.0 h.0.1 sink s
          (omega arith) in
      let p = send_frame rng aead cipher user_id pad no_addr (b ∷ bs) sink s in
      let rest = send_loop-IsStream rs p.sink p.state h.1 (
        subst (λ t. max_message * length rs ≤ t.room) (sym one.written)
          (omega (arith, one.bounded))) in
      let head = be16 (length one.encrypted) ++ one.encrypted in
      subst (IsStream (chunk (b ∷ bs) ∷ rs) sink) (sym (loop_step b bs rs sink s goes_on)) (record {
        wire = head ++ rest.wire;
        written =
            rest.written
            ∙ ap (λ t. extended t rest.wire) one.written
            ∙ extended-append sink head rest.wire;
        carries =
            subst (λ t. Carries aead cipher (head ++ rest.wire) (t ++ read_bytes rs))
              one.same_payload
              (message one.encrypted one.plaintext one.frame (omega (arith, one.bounded)) one.opens
                one.decodes rest.carries);
        bounded = omega (arith, one.bounded, rest.bounded, length-append one.encrypted rest.wire);
        ended = rest.ended;
      })
