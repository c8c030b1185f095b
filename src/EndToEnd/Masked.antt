-- ===== src/EndToEnd/Masked.antt =====
-- The client of ghost-client against the Reality mode of ghost-server.
use reliz_protocol.Base.{
  ℕ, ◌-◌, ◌≤◌, ◌<◌, ◌≡◌, ◌≢◌, refl, ap, sym, ◌∙◌, List, [], ◌∷◌, ◌++◌, All, All-append, append-nil,
  false, none, length, arith, ok, err,
}
use reliz_protocol.Base.Io.{Ending, chunk}
use reliz_protocol.Base.Utf8.{Str, chars, utf8, IsText, IsScalar, IsAscii-IsText}
use reliz_protocol.Base.Utf8.Laws.{from_utf8_lossy-utf8}
use reliz_protocol.Base.Search.{behind, strip_prefix, behind-append}
use reliz_protocol.Crypto.{Aead}
use reliz_protocol.Conn.{message}
use reliz_protocol.Conn.Laws.{at, send_lem}
use reliz_protocol.Client.Reality.{
  auth_token, request, any_text, contains_text, accepts, connect_reality,
}
use reliz_protocol.Server.Handler.{ServerState, Network}
use reliz_protocol.Server.Reality.{redirect, serve}
use reliz_protocol.Server.Reality.Auth.{IsPlain, serve-auth_token}

-- A domain that none of the words of an acceptance can begin in.
abbrev pub IsUnmarked : Str → Type 0
IsUnmarked d = IsText d × All (λ c. c ≢ b'1') d × All (λ c. c ≢ b'2') d × All (λ c. c ≢ b'G') d

abbrev before_domain : Str
before_domain = chars "HTTP/1.1 301 Moved Permanently" ++ (13 ∷ 10 ∷ chars "Location: https://")

abbrev behind_domain : Str
behind_domain =
    13
    ∷ 10
    ∷ (chars "Content-Length: 0"
        ++ (13 ∷ 10 ∷ (chars "Connection: close" ++ 13 ∷ 10 ∷ 13 ∷ 10 ∷ [])))

abbrev redirect_text : Str → Str
redirect_text d = before_domain ++ (d ++ behind_domain)

redirect_lem : (d : Str) → redirect d ≡ utf8 (redirect_text d)
unfolding redirect
redirect_lem d = refl

redirect_text-IsText : (d : Str) → IsText d → IsText (redirect_text d)
redirect_text-IsText d h =
    All-append IsScalar before_domain (d ++ behind_domain)
      (IsAscii-IsText before_domain (omega arith))
      (All-append IsScalar d behind_domain h (IsAscii-IsText behind_domain (omega arith)))

-- A word whose first character does not occur.
not_contained :
    (x : ℕ) (p d : Str)
    → All (λ c. c ≢ x) d
    → All (λ c. c ≢ x) before_domain
    → All (λ c. c ≢ x) behind_domain
    → contains_text (x ∷ p) (redirect_text d) ≡ false
unfolding contains_text
not_contained x p d h before after = ap any_text (
    behind-append x p before_domain (d ++ behind_domain) before
    ∙ behind-append x p d behind_domain h
    ∙ ap (behind (x ∷ p)) (sym (append-nil behind_domain))
    ∙ behind-append x p behind_domain [] after
    ∙ nothing)
  where
    nothing : behind (x ∷ p) [] ≡ none
    nothing = unfold behind strip_prefix in refl

abbrev switching_words : Str
switching_words = chars "101 Switching Protocols"

past_before :
    (text : Str) → behind switching_words (before_domain ++ text) ≡ behind switching_words text
unfolding behind strip_prefix
past_before text = refl

past_after : behind switching_words behind_domain ≡ none
unfolding behind strip_prefix
past_after = refl

no_switching :
    (d : Str) → All (λ c. c ≢ b'1') d → contains_text switching_words (redirect_text d) ≡ false
unfolding contains_text
no_switching d h = ap any_text (
    past_before (d ++ behind_domain)
    ∙ behind-append b'1' (chars "01 Switching Protocols") d behind_domain h
    ∙ past_after)

redirect_refused : (d : Str) → IsUnmarked d → accepts (redirect d) ≡ false
redirect_refused d h =
    unfold accepts in
    rw (
      redirect_lem d,
      from_utf8_lossy-utf8 (redirect_text d) (redirect_text-IsText d h.0),
      not_contained b'2' (chars "00 OK") d h.2 (omega arith) (omega arith),
      not_contained b'G' (chars "host Proxy") d h.3 (omega arith) (omega arith),
      no_switching d h.1,
    )

redirect_not_empty : (d : Str) → 0 < length (redirect d)
unfolding redirect utf8
redirect_not_empty d = omega arith

response_refused :
    (d : Str) (bytes rest : List ℕ) (e : Ending) (out : List ℕ) (room : ℕ)
    → accepts bytes ≡ false
    → 0 < length bytes
    → length (utf8 (request d auth_token)) ≤ room
    → connect_reality d (chunk bytes) (at rest e out room) ≡ (
      err (message (chars "Reality auth failed: unexpected response")),
      at rest e (out ++ utf8 (request d auth_token)) (room - length (utf8 (request d auth_token))),
    )
response_refused d [] rest e out room refused some_byte space = absurd (omega arith)
response_refused d (b ∷ bytes) rest e out room refused some_byte space =
    unfold connect_reality in
    rw (send_lem e out room (utf8 (request d auth_token)) rest space, refused)

-- In Reality mode no tunnel comes about: on the request that the client sends, for a domain
-- without a capital X, the server opens no session and writes its redirect, and on that redirect
-- the client gives up. This holds for every key, every state of the server and every mask domain
-- of the server without `1`, `2` and `G`, if both connections take what is written and one read of
-- the client gives the redirect.
pub connect_reality-serve :
    (aead : Aead) (net : Network) (state : ServerState) (auth_key mask_domain d : Str) (e : Ending)
    (room room' : ℕ)
    → IsPlain d
    → IsUnmarked mask_domain
    → length (redirect mask_domain) ≤ room
    → length (utf8 (request d auth_token)) ≤ room'
    → let asked = utf8 (request d auth_token) in
      let (session, c) =
        serve aead net state auth_key mask_domain (chunk asked) (at [] e [] room) in
      (session ≡ ok none)
      × (connect_reality d (chunk c.output.written) (at [] e [] room') ≡ (
        err (message (chars "Reality auth failed: unexpected response")),
        at [] e asked (room' - length asked),
      ))
connect_reality-serve aead net state auth_key mask_domain d e room room' plain unmarked space
      space' =
    let served = serve-auth_token aead net state auth_key mask_domain d [] e [] room plain space in
    (
      ap (λ t. t.0) served,
      ap (λ t. connect_reality d (chunk t.1.output.written) (at [] e [] room')) served
          ∙ response_refused d (redirect mask_domain) [] e [] room'
              (redirect_refused mask_domain unmarked) (redirect_not_empty mask_domain) space',
    )
