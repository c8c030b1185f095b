-- ===== src/Checks/Ja4.antt =====
-- Fingerprints of TLS clients at concrete inputs.
use reliz_protocol.Base.{◌≡◌, refl, List, [], ◌∷◌, false, some}
use mathlib.Core.List.{Perm}
use mathlib.Core.List.Perm
use reliz_protocol.Base.Utf8.{chars}
use reliz_protocol.Reality.Ja4.{
  Ja4Profile, calculate_ja4, verify_ja4, TlsMessage, client_hello, hello_ja4, first_hello,
  extract_ja4_from_client_hello,
}
use reliz_protocol.Reality.Ja4.Profiles.{chrome_131_profile, firefox_133_profile}
use reliz_protocol.Reality.Ja4.Order.{calculate_ja4-perm}
use reliz_protocol.Reality.Ja4.Hello.{fingerprints, extracted_refused}

abbrev small : Ja4Profile
small = record {
  name = chars "Small";
  version = chars "1";
  cipher_suites = 0x1301 ∷ 0xc02b ∷ [];
  extensions = 0 ∷ 16 ∷ 23 ∷ [];
  supported_groups = [];
  signature_algorithms = [];
  alpn = [];
  tls_version = 0x0304;
}

calculate_ja4-perm_example :
    calculate_ja4 (record small { extensions = 16 ∷ 0 ∷ 23 ∷ [] }) ≡ calculate_ja4 small
calculate_ja4-perm_example = calculate_ja4-perm small (16 ∷ 0 ∷ 23 ∷ []) swapped
  where
    swapped : Perm (16 ∷ 0 ∷ 23 ∷ []) small.extensions
    swapped = Perm.swap 0 16 (23 ∷ [])

abbrev hello : List TlsMessage
hello = client_hello 0x0303 (0x1301 ∷ 0x1302 ∷ []) (some (0 ∷ 0 ∷ 0 ∷ 0 ∷ [])) ∷ []

extracted_refused_example :
    verify_ja4
      (hello_ja4 0x0303 (0x1301 ∷ 0x1302 ∷ []) (some (0 ∷ 0 ∷ 0 ∷ 0 ∷ [])))
      (fingerprints (chrome_131_profile ∷ firefox_133_profile ∷ []))
    ≡ false
unfolding chrome_131_profile firefox_133_profile extract_ja4_from_client_hello first_hello
extracted_refused_example =
    extracted_refused (λ bytes. some hello) (22 ∷ 3 ∷ 1 ∷ [])
      (hello_ja4 0x0303 (0x1301 ∷ 0x1302 ∷ []) (some (0 ∷ 0 ∷ 0 ∷ 0 ∷ [])))
      (chrome_131_profile ∷ firefox_133_profile ∷ []) hello refl (refl, tt) (refl, (refl, tt)) refl
