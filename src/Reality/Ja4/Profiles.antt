-- ===== src/Reality/Ja4/Profiles.antt =====
-- The browsers' profiles and the table of their fingerprints.
use reliz_protocol.Base.{List, [], ◌∷◌, same, if◌then◌else◌}
use reliz_protocol.Base.Utf8.{Str, chars}
use reliz_protocol.Reality.Ja4.{Ja4Profile, calculate_ja4}

unfoldable pub chrome_131_profile : Ja4Profile
chrome_131_profile = record {
  name = chars "Chrome";
  version = chars "131";
  cipher_suites =
      0x1301 ∷ 0x1302 ∷ 0x1303 ∷ 0xc02b ∷ 0xc02f ∷ 0xc02c ∷ 0xc030 ∷ 0xcca9 ∷ 0xcca8 ∷ 0xc013
      ∷ 0xc014 ∷ 0x009c ∷ 0x009d ∷ 0x002f ∷ 0x0035 ∷ [];
  extensions =
      0x0000 ∷ 0x0010 ∷ 0x0017 ∷ 0x001b ∷ 0x0033 ∷ 0x002b ∷ 0x002d ∷ 0x0039 ∷ 0x000d ∷ 0x000b
      ∷ 0x000a ∷ 0x0015 ∷ 0xff01 ∷ 0x0012 ∷ [];
  supported_groups = 0x001d ∷ 0x0017 ∷ 0x0018 ∷ 0x0019 ∷ 0x0100 ∷ 0x0101 ∷ [];
  signature_algorithms =
      0x0403 ∷ 0x0503 ∷ 0x0603 ∷ 0x0804 ∷ 0x0805 ∷ 0x0806 ∷ 0x0401 ∷ 0x0501 ∷ 0x0601 ∷ 0x0201 ∷ [];
  alpn = chars "h2" ∷ chars "http/1.1" ∷ [];
  tls_version = 0x0304;
}

unfoldable pub firefox_133_profile : Ja4Profile
firefox_133_profile = record {
  name = chars "Firefox";
  version = chars "133";
  cipher_suites =
      0x1301 ∷ 0x1303 ∷ 0x1302 ∷ 0xc02b ∷ 0xcca9 ∷ 0xc02f ∷ 0xcca8 ∷ 0xc02c ∷ 0xc030 ∷ 0xc013
      ∷ 0xc014 ∷ [];
  extensions =
      0x0000 ∷ 0x0010 ∷ 0x0005 ∷ 0x0017 ∷ 0x002b ∷ 0x000d ∷ 0x000a ∷ 0x0033 ∷ 0x002d ∷ 0x0015
      ∷ 0x0012 ∷ [];
  supported_groups = 0x001d ∷ 0x0017 ∷ 0x0018 ∷ [];
  signature_algorithms =
      0x0403 ∷ 0x0503 ∷ 0x0603 ∷ 0x0804 ∷ 0x0805 ∷ 0x0806 ∷ 0x0401 ∷ 0x0501 ∷ 0x0601 ∷ [];
  alpn = chars "h2" ∷ chars "http/1.1" ∷ [];
  tls_version = 0x0304;
}

unfoldable pub chrome_ja4_fingerprint : Str
unfolding calculate_ja4 chrome_131_profile
chrome_ja4_fingerprint = calculate_ja4 chrome_131_profile

unfoldable pub firefox_ja4_fingerprint : Str
unfolding calculate_ja4 firefox_133_profile
firefox_ja4_fingerprint = calculate_ja4 firefox_133_profile

-- A map from fingerprints to names, without the order of its keys.
abbrev pub Database : Type 0
Database = List (Str × Str)

unfoldable pub insert : Str → Str → Database → Database
insert key name [] = (key, name) ∷ []
insert key name ((k, n) ∷ db) =
    let rest = insert key name db in if same k key then (k, name) ∷ db else (k, n) ∷ rest

unfoldable pub known_ja4_database : Database
unfolding insert
known_ja4_database =
    insert firefox_ja4_fingerprint (chars "Firefox 133")
      (insert chrome_ja4_fingerprint (chars "Chrome 131") [])
