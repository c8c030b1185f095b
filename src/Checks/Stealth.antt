-- ===== src/Checks/Stealth.antt =====
-- Padding and fragments at concrete inputs.
use reliz_protocol.Base.{
  ℕ, ◌+◌, ◌%◌, ◌≤◌, ◌≡◌, List, [], ◌∷◌, ◌++◌, length, take, concat, some, true, arith,
}
use reliz_protocol.Base.Utf8.{chars}
use reliz_protocol.Stealth.{
  FragmentationConfig, FragmentedData, fragment_tls_client_hello, normalize_to_multiple,
  default_strategy, calculate_padding_len, apply_padding, normalize_packet_size,
}
use reliz_protocol.Stealth.Padding.{
  apply_padding-mark, calculate_padding_multiple, normalize_packet_size_lem,
}
use reliz_protocol.Stealth.Fragments.{concat-fragment_tls_client_hello}
use reliz_protocol.Checks.Instances.{steady}

abbrev config : FragmentationConfig
config = record {
  enabled = true;
  first_fragment_size = 9;
  inter_fragment_delay_ms = 5;
  first_packet_only = true;
}

abbrev hello_record : List ℕ
hello_record = 3 ∷ 1 ∷ 0 ∷ 2 ∷ 1 ∷ 0 ∷ []

concat-fragment_tls_client_hello_example :
    (d : FragmentedData) × (fragment_tls_client_hello (0x16 ∷ hello_record) config ≡ some d)
    × (concat d.fragments ≡ 0x16 ∷ hello_record)
concat-fragment_tls_client_hello_example =
    concat-fragment_tls_client_hello (0x16 ∷ hello_record) config

apply_padding_run :
    (len : ℕ) × (pad : List ℕ) × (s1 : ℕ) × (length pad ≡ len)
    × (len ≤ 255)
    × (apply_padding steady (chars "abc") default_strategy 0
        ≡ some (chars "abc" ++ len ∷ pad, (len, s1)))
apply_padding_run = apply_padding-mark steady (chars "abc") default_strategy 0 tt

calculate_padding_run :
    (len : ℕ) × (s1 : ℕ) × (calculate_padding_len steady 21 (normalize_to_multiple 16 64) 0
      ≡ some (len, s1))
    × ((21 + len) % 16 ≡ 0)
calculate_padding_run =
    calculate_padding_multiple steady 21 16 64 0 (omega arith) (omega arith) (omega arith)

sizes_run :
    let r = normalize_packet_size steady (chars "abc") 10 0 in
    (take 3 r.0 ≡ chars "abc") × (length r.0 ≡ 10)
sizes_run = normalize_packet_size_lem steady (chars "abc") 10 0
