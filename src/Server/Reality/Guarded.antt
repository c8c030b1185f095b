-- ===== src/Server/Reality/Guarded.antt =====
-- What a peer of the Reality mode must have sent to get a session.
use reliz_protocol.Base.{
  ℕ, ◌≡◌, refl, sym, ap, subst, ◌∙◌, List, [], ◌∷◌, ◌++◌, length, All, true, ◌==◌, same_sound,
  arith, Bool-cases, inl, inr, Option, none, some, ok,
}
use reliz_protocol.Base.Search.{
  behind, behind_sound, trim_start, trim_start_sound, take_token, take_token_sound, IsSpace,
  IsBreak,
}
use reliz_protocol.Base.Io.{Read, chunk, read_error}
use reliz_protocol.Base.Utf8.{Str, chars, utf8, from_utf8_lossy}
use reliz_protocol.Crypto.{Aead}
use reliz_protocol.Conn.{Conn, send}
use reliz_protocol.Conn.Inverse.{by_step, IsSent, send-eq-ok}
use reliz_protocol.Server.Handler.{ServerState, Network, Session, open_session}
use reliz_protocol.Server.Handler.Admitted.{IsAdmitted, open_session-IsAdmitted}
use reliz_protocol.Server.Reality.{
  token_of, presented, is_key, detect_ghost_auth, switching, redirect, attempt, tunnel, masked,
  serve,
}

-- The text of the bytes has the header's name, whitespace, the key, and then its end or whitespace;
-- and the key has 64 bytes.
pub record IsPresented (auth_key : Str) (bytes : List ℕ) : Type 0 where
  pub before : Str
  pub gap : Str
  pub rest : Str
  pub request :
      from_utf8_lossy bytes ≡ before ++ (chars "X-Ghost-Auth:" ++ (gap ++ (auth_key ++ rest)))
  pub spaces : All IsSpace gap
  pub ends : IsBreak rest
  pub key_len : length (utf8 auth_key) ≡ 64

key_test :
    (token auth_key : Str)
    → is_key auth_key (some token) ≡ true
    → (length (utf8 token) ≡ 64) × (token ≡ auth_key)
unfolding is_key
key_test token auth_key h = elim (Bool-cases (length (utf8 token) == 64)) [
  | inl k ↦ (==-sound (length (utf8 token)) k, same_sound token auth_key (rw k at h))
  | inr k ↦ cc (rw k at h)
]
  where
    ==-sound : (n : ℕ) → (n == 64) ≡ true → n ≡ 64
    ==-sound n e = ground arith

-- The key behind the first match of the header's name.
found_key :
    (bytes : List ℕ) (auth_key : Str) (found : Option Str)
    → ((r : Str)
        → found ≡ some r
        → (before : Str) × (from_utf8_lossy bytes ≡ before ++ (chars "X-Ghost-Auth:" ++ r)))
    → is_key auth_key (token_of found) ≡ true
    → IsPresented auth_key bytes
unfolding token_of
found_key bytes auth_key none is h = absurd (unfold is_key in cc h)
found_key bytes auth_key (some r) is h =
    let (before, request) = is r refl in
    let (gap, spaces, trimmed) = trim_start_sound r in
    let (rest, ends, cut) = take_token_sound (trim_start r) in
    let (len, same_key) = key_test (take_token (trim_start r)) auth_key h in
    record {
      before = before;
      gap = gap;
      rest = rest;
      request =
          request
          ∙ ap (λ t. before ++ (chars "X-Ghost-Auth:" ++ t))
              (trimmed ∙ ap (λ t. gap ++ t) (cut ∙ ap (λ t. t ++ rest) same_key));
      spaces = spaces;
      ends = ends;
      key_len = ap (λ t. length (utf8 t)) (sym same_key) ∙ len;
    }

detected :
    (bytes : List ℕ) (auth_key : Str)
    → detect_ghost_auth bytes auth_key ≡ true
    → IsPresented auth_key bytes
unfolding detect_ghost_auth presented
detected bytes auth_key h =
    found_key bytes auth_key (behind (chars "X-Ghost-Auth:") (from_utf8_lossy bytes))
      (behind_sound (chars "X-Ghost-Auth:") (from_utf8_lossy bytes)) h

module _ (aead : Aead) (net : Network) (state : ServerState) (auth_key mask_domain : Str) where
  -- The first read had the key in its header and was answered, and what came behind it opened the session
  -- of an allowed user.
  pub record IsGuarded (first : Read) (session : Session) (c c' : Conn) : Type 0 where
    pub bytes : List ℕ
    pub requested : first ≡ chunk bytes
    pub presents_key : IsPresented auth_key bytes
    pub next : Conn
    pub answered : IsSent switching c next
    pub admitted : IsAdmitted aead net state session next c'

  tunnel-IsGuarded :
      (bytes : List ℕ) (session : Session) (c c' : Conn)
      → detect_ghost_auth bytes auth_key ≡ true
      → tunnel aead net state auth_key mask_domain c ≡ (ok (some session), c')
      → IsGuarded (chunk bytes) session c c'
  unfolding tunnel
  tunnel-IsGuarded bytes session c c' key e =
      by_step (send switching c) _ (some session) c' e (λ u c1 e1 f1.
        by_step (open_session aead net state c1) _ (some session) c' f1 (λ opened c2 e2 f2. record {
          bytes = bytes;
          requested = refl;
          presents_key = detected bytes auth_key key;
          next = c1;
          answered = send-eq-ok switching c c1 e1;
          admitted =
              subst (λ t. IsAdmitted aead net state t c1 c') (cc (ap (λ t. t.0) f2))
                (subst (λ t. IsAdmitted aead net state opened c1 t) (ap (λ t. t.1) f2)
                  (open_session-IsAdmitted aead net state opened c1 c2 e2));
        }))

  masked-none :
      (session : Session) (c c' : Conn)
      → masked aead net state auth_key mask_domain c ≡ (ok (some session), c')
      → ⊥
  unfolding masked
  masked-none session c c' e =
      by_step (attempt (send (redirect mask_domain)) c) _ (some session) c' e (λ u c1 e1 f1. cc f1)

  -- In Reality mode a session is opened behind two locks. When the task of a connection opens one,
  -- whatever its peer sends, the server's key has 64 bytes, the text of the first read has this key
  -- behind `X-Ghost-Auth:` and whitespace, up to its end or more whitespace, the read was answered
  -- with 101, and the bytes behind it are those of an allowed user, as `open_session` demands.
  pub serve-IsGuarded :
      (first : Read) (session : Session) (c c' : Conn)
      → serve aead net state auth_key mask_domain first c ≡ (ok (some session), c')
      → IsGuarded first session c c'
  unfolding serve
  serve-IsGuarded read_error session c c' e = cc e
  serve-IsGuarded (chunk []) session c c' e = cc e
  serve-IsGuarded (chunk (b ∷ bytes)) session c c' e =
      elim (Bool-cases (detect_ghost_auth (b ∷ bytes) auth_key)) [
        | inl h ↦ tunnel-IsGuarded (b ∷ bytes) session c c' h (rw h at e)
        | inr h ↦ absurd (masked-none session c c' (rw h at e))
      ]
