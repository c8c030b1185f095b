-- ===== src/Server/Reality/Auth.antt =====
-- Which requests are taken for the client's, and what the others get.
use reliz_protocol.Base.{
  ℕ, ◌*◌, ◌-◌, ◌/◌, ◌%◌, ◌<◌, ◌≤◌, ◌≡◌, ◌≢◌, refl, ap, ◌∙◌, List, [], ◌∷◌, ◌++◌, length, All,
  All-append, same_refl, true, false, some, none, arith, ok,
}
use reliz_protocol.Base.Bytes.{IsByte}
use reliz_protocol.Base.Io.{Ending, chunk}
use reliz_protocol.Base.Utf8.{
  Str, chars, utf8, IsText, IsScalar, IsAscii, IsAscii-IsText, utf8-ascii,
}
use reliz_protocol.Base.Utf8.Laws.{from_utf8_lossy-utf8}
use reliz_protocol.Base.Hex.{hex_digit, hex_encode, hex_encode-IsAscii, length-hex_encode}
use reliz_protocol.Base.Search.{
  behind, is_whitespace, trim_start, IsSolid, behind-append, behind-found, take_token-append,
}
use reliz_protocol.Crypto.{Aead}
use reliz_protocol.Conn.Laws.{at, send_lem}
use reliz_protocol.Client.Reality.{default_key, auth_token, opening, closing, request}
use reliz_protocol.Server.Handler.{ServerState, Network}
use reliz_protocol.Server.Reality.{presented, detect_ghost_auth, redirect, serve}

-- A domain without a capital X, with which the name of the header begins.
abbrev pub IsPlain : Str → Type 0
IsPlain d = IsText d × All (λ c. c ≢ b'X') d

request-IsText : (d token : Str) → IsText d → All IsAscii token → IsText (request d token)
request-IsText d token h a =
    unfold request in
    All-append IsScalar opening _ (IsAscii-IsText opening (omega arith)) (
      All-append IsScalar d _ h (
        All-append IsScalar (13 ∷ 10 ∷ chars "X-Ghost-Auth: ") (token ++ closing)
          (IsAscii-IsText (13 ∷ 10 ∷ chars "X-Ghost-Auth: ") (omega arith))
          (All-append IsScalar token closing (IsAscii-IsText token a)
            (IsAscii-IsText closing (omega arith)))))

-- What stands behind the header's name.
behind-request :
    (d token : Str)
    → All (λ c. c ≢ b'X') d
    → behind (chars "X-Ghost-Auth:") (request d token) ≡ some (32 ∷ (token ++ closing))
behind-request d token h =
    unfold request in
    behind-append b'X' (chars "-Ghost-Auth:") opening _ (omega arith)
    ∙ behind-append b'X' (chars "-Ghost-Auth:") d _ h
    ∙ behind-append b'X' (chars "-Ghost-Auth:") (13 ∷ 10 ∷ []) _ (omega arith)
    ∙ behind-found b'X' (chars "-Ghost-Auth:") (32 ∷ (token ++ closing))

hex_digit-IsSolid : (d : ℕ) → d < 16 → IsSolid (hex_digit d)
unfolding is_whitespace
hex_digit-IsSolid d h = ground arith

hex_encode-IsSolid : (bytes : List ℕ) → All IsByte bytes → All IsSolid (hex_encode bytes)
unfolding hex_encode
hex_encode-IsSolid [] h = tt
hex_encode-IsSolid (b ∷ bytes) h = (
  hex_digit-IsSolid (b / 16) (omega arith),
  (hex_digit-IsSolid (b % 16) (omega arith), hex_encode-IsSolid bytes h.1),
)

trim_start_blank : (c : ℕ) (text : Str) → IsSolid c → trim_start (32 ∷ c ∷ text) ≡ c ∷ text
unfolding trim_start
trim_start_blank c text h = rw (h, white) refl
  where
    white : is_whitespace 32 ≡ true
    white = unfold is_whitespace in refl

presented_solid :
    (d : Str) (c : ℕ) (token : Str)
    → IsPlain d
    → All IsAscii (c ∷ token)
    → All IsSolid (c ∷ token)
    → presented (utf8 (request d (c ∷ token))) ≡ some (c ∷ token)
presented_solid d c token h ascii solid =
    unfold presented in
    rw
      (
        from_utf8_lossy-utf8 (request d (c ∷ token)) (request-IsText d (c ∷ token) h.0 ascii),
        behind-request d (c ∷ token) h.1,
        trim_start_blank c (token ++ closing) solid.0,
      )
      (ap some (take_token-append (c ∷ token) 13 _ solid (unfold is_whitespace in refl)))

-- A request with some bytes in hexadecimal presents just those.
presented-request :
    (d : Str) (key : List ℕ)
    → IsPlain d
    → All IsByte key
    → 0 < length key
    → presented (utf8 (request d (hex_encode key))) ≡ some (hex_encode key)
unfolding hex_encode
presented-request d [] h bytes some_key = absurd (omega arith)
presented-request d (b ∷ key) h bytes some_key =
    presented_solid d (hex_digit (b / 16)) (hex_digit (b % 16) ∷ hex_encode key) h
      (hex_encode-IsAscii (b ∷ key) bytes) (hex_encode-IsSolid (b ∷ key) bytes)

length-utf8-hex_encode :
    (key : List ℕ) → All IsByte key → length (utf8 (hex_encode key)) ≡ 2 * length key
length-utf8-hex_encode key h =
    ap length (utf8-ascii (hex_encode key) (hex_encode-IsAscii key h)) ∙ length-hex_encode key

-- The request of the client with the key's own token, its 32 bytes in hexadecimal, is recognised,
-- for any mask domain without a capital X.
pub detect-hex_encode :
    (d : Str) (key : List ℕ)
    → IsPlain d
    → All IsByte key
    → length key ≡ 32
    → detect_ghost_auth (utf8 (request d (hex_encode key))) (hex_encode key) ≡ true
detect-hex_encode d key h bytes len =
    unfold detect_ghost_auth in
    rw (
      presented-request d key h bytes (omega arith),
      length-utf8-hex_encode key bytes,
      len,
      same_refl (hex_encode key),
    )

default_key-IsByte : All IsByte default_key
unfolding default_key utf8
default_key-IsByte = omega arith

-- The request that the client does send is never recognised, whatever the server's key and
-- whatever mask domain without a capital X: its token has 36 characters, and 64 are required.
pub detect-auth_token :
    (d auth_key_hex : Str)
    → IsPlain d
    → detect_ghost_auth (utf8 (request d auth_token)) auth_key_hex ≡ false
detect-auth_token d auth_key_hex h =
    unfold detect_ghost_auth auth_token in
    rw
      (
        presented-request d default_key h default_key-IsByte
            (unfold default_key utf8 in omega arith),
        length-utf8-hex_encode default_key default_key-IsByte,
      )
      (unfold default_key utf8 in refl)

-- A first message without the key, of a byte at least, is answered with the redirect to the mask
-- domain, if the connection takes it, and its sender gets no session.
pub serve_masks :
    (aead : Aead) (net : Network) (state : ServerState) (auth_key mask_domain : Str)
    (bytes rest : List ℕ) (e : Ending) (out : List ℕ) (room : ℕ)
    → detect_ghost_auth bytes auth_key ≡ false
    → 0 < length bytes
    → length (redirect mask_domain) ≤ room
    → serve aead net state auth_key mask_domain (chunk bytes) (at rest e out room)
      ≡ (ok none, at rest e (out ++ redirect mask_domain) (room - length (redirect mask_domain)))
serve_masks aead net state auth_key mask_domain [] rest e out room refused some_byte space =
    absurd (omega arith)
serve_masks aead net state auth_key mask_domain (b ∷ bytes) rest e out room refused some_byte
      space =
    unfold serve in rw (refused, send_lem e out room (redirect mask_domain) rest space)

pub request_not_empty : (d token : Str) → 0 < length (utf8 (request d token))
unfolding utf8 request
request_not_empty d token = omega arith

-- The request that the client sends, for whatever mask domain without a capital X, is answered
-- with the redirect to the server's mask domain, if the connection takes it, and the client gets
-- no session, whatever the server's key.
pub serve-auth_token :
    (aead : Aead) (net : Network) (state : ServerState) (auth_key mask_domain d : Str)
    (rest : List ℕ) (e : Ending) (out : List ℕ) (room : ℕ)
    → IsPlain d
    → length (redirect mask_domain) ≤ room
    → serve aead net state auth_key mask_domain
        (chunk (utf8 (request d auth_token)))
        (at rest e out room)
      ≡ (ok none, at rest e (out ++ redirect mask_domain) (room - length (redirect mask_domain)))
serve-auth_token aead net state auth_key mask_domain d rest e out room h space =
    serve_masks aead net state auth_key mask_domain (utf8 (request d auth_token)) rest e out room
      (detect-auth_token d auth_key h) (request_not_empty d auth_token) space
