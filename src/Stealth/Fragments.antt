-- ===== src/Stealth/Fragments.antt =====
-- Fragments put together are the data, and where they are cut.
use reliz_protocol.Base.{
  ℕ, ◌≤◌, ◌≡◌, refl, ap, ◌∙◌, min, List, [], ◌∷◌, ◌++◌, append-nil, length, take, drop,
  take-append-drop, concat, Bool, Option, some, false, not, ◌||◌, arith, ltb, leb, le→ltb,
  Bool-cases, inl, inr,
}
use reliz_protocol.Stealth.{
  FragmentationConfig, FragmentedData, fragment_data, fragment_tls_client_hello, starts_handshake,
  split_at, in_two, tls_split_point,
}

concat-take-drop : (n : ℕ) (bytes : List ℕ) → concat (take n bytes ∷ drop n bytes ∷ []) ≡ bytes
concat-take-drop n bytes =
    ap (λ t. take n bytes ++ t) (append-nil (drop n bytes)) ∙ take-append-drop n bytes

-- A result that is no panic, with the data in its fragments.
abbrev pub IsComplete : List ℕ → Option FragmentedData → Type 0
IsComplete bytes r = (d : FragmentedData) × (r ≡ some d) × (concat d.fragments ≡ bytes)

whole-IsComplete :
    (bytes : List ℕ)
    → IsComplete bytes (some (record { fragments = bytes ∷ []; inter_delay_ms = 0 }))
whole-IsComplete bytes = (_, refl, append-nil bytes)

-- A cut that is not behind the end.
in_two-split_at :
    (n : ℕ) (bytes : List ℕ) (config : FragmentationConfig)
    → n ≤ length bytes
    → in_two config (split_at n bytes)
      ≡ some (record {
        fragments = take n bytes ∷ drop n bytes ∷ [];
        inter_delay_ms = config.inter_fragment_delay_ms;
      })
unfolding in_two split_at
in_two-split_at n bytes config inside = rw (le→ltb (length bytes) n inside) refl

cut-IsComplete :
    (n : ℕ) (bytes : List ℕ) (config : FragmentationConfig)
    → n ≤ length bytes
    → IsComplete bytes (in_two config (split_at n bytes))
cut-IsComplete n bytes config inside =
    (_, in_two-split_at n bytes config inside, concat-take-drop n bytes)

fragment_data-IsComplete :
    (bytes : List ℕ) (config : FragmentationConfig) → IsComplete bytes (fragment_data bytes config)
fragment_data-IsComplete bytes config =
    elim (Bool-cases (not config.enabled || leb (length bytes) config.first_fragment_size)) [
      | inl e ↦ unfold fragment_data in rw e (whole-IsComplete bytes)
      | inr e ↦
          let n = min config.first_fragment_size (length bytes) in
          unfold fragment_data in rw e (cut-IsComplete n bytes config (omega arith))
    ]

long_enough : (enabled : Bool) (n : ℕ) → (not enabled || ltb n 5) ≡ false → 5 ≤ n
long_enough enabled n h = ground arith

-- Whatever the configuration and the data, `fragment_tls_client_hello` does not panic, and its
-- fragments are the data, cut but complete and in order.
pub concat-fragment_tls_client_hello :
    (bytes : List ℕ) (config : FragmentationConfig)
    → (d : FragmentedData) × (fragment_tls_client_hello bytes config ≡ some d)
      × (concat d.fragments ≡ bytes)
concat-fragment_tls_client_hello bytes config =
    elim (Bool-cases (not config.enabled || ltb (length bytes) 5)) [
      | inl e ↦ unfold fragment_tls_client_hello in rw e (whole-IsComplete bytes)
      | inr e ↦ elim (Bool-cases (starts_handshake bytes)) [
        | inl h ↦
            let inside : tls_split_point config ≤ length bytes =
              omega (arith, long_enough config.enabled (length bytes) e) in
            unfold fragment_tls_client_hello in
            rw (e, h) (cut-IsComplete (tls_split_point config) bytes config inside)
        | inr h ↦
            unfold fragment_tls_client_hello in rw (e, h) (fragment_data-IsComplete bytes config)
      ]
    ]
