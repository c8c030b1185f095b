-- ===== src/Stealth.antt =====
-- Padding, fragmentation and size normalization (ghost-common/src/stealth.rs).
pub mod Padding
pub mod Fragments
use reliz_protocol.Base.{
  ℕ, ◌+◌, ◌*◌, ◌-◌, ◌%◌, ◌^◌, min, max, List, [], ◌∷◌, ◌++◌, Bool, false, not, ◌||◌, Option, none,
  some, length, take, drop, ltb, leb, ◌==◌, if◌then◌else◌,
}
use reliz_protocol.Base.Bytes.{as_u8}
use reliz_protocol.Base.Random.{Rng}

pub data PaddingStrategy : Type 0 where
  fixed : ℕ → PaddingStrategy
  random : ℕ → ℕ → PaddingStrategy
  normalize_to_multiple : ℕ → ℕ → PaddingStrategy

abbrev pub default_strategy : PaddingStrategy
default_strategy = random 0 64

pub record FragmentationConfig : Type 0 where
  pub enabled : Bool
  pub first_fragment_size : ℕ
  pub inter_fragment_delay_ms : ℕ
  pub first_packet_only : Bool

pub record FragmentedData : Type 0 where
  pub fragments : List (List ℕ)
  pub inter_delay_ms : ℕ

module _ (rng : Rng) where
  open rng use {State, gen_range, fill}

  -- The arm for multiples; the product wraps as in a release build.
  to_multiple : ℕ → ℕ → ℕ → State → ℕ × State
  to_multiple multiple max_padding remainder s =
      if remainder == 0
      then (let (n, s1) = gen_range 0 2 s in (min (n * multiple % 2 ^ 64) max_padding, s1))
      else (min (multiple - remainder) max_padding, s)

  -- `none` where it panics: a remainder by zero.
  unfoldable pub calculate_padding_len : ℕ → PaddingStrategy → State → Option (ℕ × State)
  unfolding to_multiple
  calculate_padding_len data_len (fixed len) s = some (len, s)
  calculate_padding_len data_len (random min_len max_len) s =
      let max_val = min max_len 255 in some (gen_range (min min_len max_val) max_val s)
  calculate_padding_len data_len (normalize_to_multiple multiple max_padding) s =
      if multiple == 0
      then none
      else some (to_multiple multiple max_padding (data_len % multiple) s)

  -- What the buffer holds then, the length that is returned, and the generator.
  padded : List ℕ → ℕ → State → List ℕ × (ℕ × State)
  padded buf pad_len s =
      if ltb 0 pad_len
      then (let (padding, s1) = fill pad_len s in (buf ++ as_u8 pad_len ∷ padding, (pad_len, s1)))
      else (buf ++ 0 ∷ [], (pad_len, s))

  padded_by : List ℕ → Option (ℕ × State) → Option (List ℕ × (ℕ × State))
  unfolding padded
  padded_by buf none = none
  padded_by buf (some (pad_len, s)) = some (padded buf pad_len s)

  unfoldable pub apply_padding : List ℕ → PaddingStrategy → State → Option (List ℕ × (ℕ × State))
  unfolding padded_by
  apply_padding buf strategy s = padded_by buf (calculate_padding_len (length buf) strategy s)

  unfoldable pub normalize_packet_size : List ℕ → ℕ → State → List ℕ × State
  normalize_packet_size data_bytes target_size s =
      if leb target_size (length data_bytes)
      then (data_bytes, s)
      else (let (padding, s1) = fill (target_size - length data_bytes) s in
          (data_bytes ++ padding, s1))

-- The slices of the data before a point and from it; `none` where they panic, behind the end.
split_at : ℕ → List ℕ → Option (List ℕ × List ℕ)
split_at n bytes = if ltb (length bytes) n then none else some (take n bytes, drop n bytes)

-- The two fragments, with the configured delay.
in_two : FragmentationConfig → Option (List ℕ × List ℕ) → Option FragmentedData
in_two config none = none
in_two config (some (first, second)) =
    some
      (record { fragments = first ∷ second ∷ []; inter_delay_ms = config.inter_fragment_delay_ms })

-- `none` where it panics.
unfoldable pub fragment_data : List ℕ → FragmentationConfig → Option FragmentedData
unfolding split_at in_two
fragment_data bytes config =
    if not config.enabled || leb (length bytes) config.first_fragment_size
    then some (record { fragments = bytes ∷ []; inter_delay_ms = 0 })
    else in_two config (split_at (min config.first_fragment_size (length bytes)) bytes)

-- `data[0] != 0x16`; the data is not empty here.
starts_handshake : List ℕ → Bool
starts_handshake [] = false
starts_handshake (b ∷ _) = b == 0x16

-- `config.first_fragment_size.min(4).max(2)`
abbrev pub tls_split_point : FragmentationConfig → ℕ
tls_split_point config = max (min config.first_fragment_size 4) 2

unfoldable pub fragment_tls_client_hello : List ℕ → FragmentationConfig → Option FragmentedData
unfolding starts_handshake split_at in_two
fragment_tls_client_hello bytes config =
    if not config.enabled || ltb (length bytes) 5
    then some (record { fragments = bytes ∷ []; inter_delay_ms = 0 })
    else if not (starts_handshake bytes)
    then fragment_data bytes config
    else in_two config (split_at (tls_split_point config) bytes)
