-- ===== src/Tunnel/Duplex.antt =====
-- A session as two ends that run at the same time: each end is the `select!` of a sending and a
-- receiving loop (ghost-client/src/tunnel.rs and ghost-server/src/handler.rs), and the first of
-- the two that ends takes the other with it. A step is one round of one loop, in any order.
pub mod Sound
pub mod Prefix
pub mod Drain
use reliz_protocol.Base.{ℕ, ◌≡◌, ◌≢◌, List, [], ◌∷◌, Bool, true, false, Option, none, some}
use reliz_protocol.Base.Random.{Rng}
use reliz_protocol.Base.Io.{closed, Read, chunk, read_error, Sink}
use reliz_protocol.Common.Types.{no_addr}
use reliz_protocol.Crypto.{Aead, GhostCipher}
use reliz_protocol.Tunnel.{Padding, Progress, Stop, Round, again, halt, send_frame, receive_round}

-- The reads that give no more data: the end of the stream, and an error.
abbrev pub IsLast : Read → Type 0
IsLast read_error = Unit {0}
IsLast (chunk []) = Unit {0}
IsLast (chunk (b ∷ bytes)) = ⊥

module _ (rng : Rng) (aead : Aead) (cipher : GhostCipher) (user_id : List ℕ) where
  open rng use {State}

  -- What its application will still give, the generator, what its application was given, and
  -- whether one of its loops has ended.
  pub record End : Type 0 where
    pub reads : List Read
    pub state : State
    pub application : Sink
    pub over : Bool

  -- Two ends and what is under way between them.
  pub record World : Type 0 where
    pub near : End
    pub far : End
    pub outbound : Sink
    pub inbound : Sink

  stopped : Option Stop → Bool
  stopped none = false
  stopped (some r) = true

  -- A round of the sending loop.
  unfoldable pub sent_by : Padding → End → List ℕ → List Read → Sink → End × Sink
  unfolding stopped
  sent_by pad x bytes rest out =
      let p = send_frame rng aead cipher user_id pad no_addr bytes out x.state in
      (record x { reads = rest; state = p.state; over = stopped p.stop }, p.sink)

  unfoldable pub after_round : End → Sink → Round → End × Sink
  after_round x inn (again src application) =
      (record x { application = application }, record inn { written = src.bytes })
  after_round x inn (halt application r) =
      (record x { application = application; over = true }, inn)

  -- A round of the receiving loop.
  unfoldable pub received_by : End → Sink → End × Sink
  unfolding after_round
  received_by x inn =
      after_round x inn
        (receive_round aead cipher (record { bytes = inn.written; ending = closed }) x.application)

  -- What one end may do: it sends what its application gave, stops when that ends, receives what
  -- is under way to it, and stops when the peer has gone and nothing is left.
  pub data Move (pad : Padding) (peer_over : Bool) (x : End) (out inn : Sink)
      (r : End × Sink × Sink) : Type 0 where
    sends :
        (b : ℕ) (bytes : List ℕ) (rest : List Read)
        → x.over ≡ false
        → x.reads ≡ chunk (b ∷ bytes) ∷ rest
        → r ≡ ((sent_by pad x (b ∷ bytes) rest out).0, (sent_by pad x (b ∷ bytes) rest out).1, inn)
        → Move pad peer_over x out inn r
    stops :
        (last : Read) (rest : List Read)
        → x.over ≡ false
        → x.reads ≡ last ∷ rest
        → IsLast last
        → r ≡ (record x { over = true }, out, inn)
        → Move pad peer_over x out inn r
    receives :
        x.over ≡ false
        → inn.written ≢ []
        → r ≡ ((received_by x inn).0, out, (received_by x inn).1)
        → Move pad peer_over x out inn r
    hangs_up :
        x.over ≡ false
        → inn.written ≡ []
        → peer_over ≡ true
        → r ≡ (record x { over = true }, out, inn)
        → Move pad peer_over x out inn r

  -- Each end has its own padding.
  module _ (near_pad far_pad : Padding) where
    pub data Step (w : World) (v : World) : Type 0 where
      near_moves :
          (r : End × Sink × Sink)
          → Move near_pad w.far.over w.near w.outbound w.inbound r
          → v ≡ record w { near = r.0; outbound = r.1; inbound = r.2 }
          → Step w v
      far_moves :
          (r : End × Sink × Sink)
          → Move far_pad w.near.over w.far w.inbound w.outbound r
          → v ≡ record w { far = r.0; inbound = r.1; outbound = r.2 }
          → Step w v

    pub data Reach (w : World) : World → Type 0 where
      here : Reach w w
      later : {v u : World} → Reach w v → Step v u → Reach w u
