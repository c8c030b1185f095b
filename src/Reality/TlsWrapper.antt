-- ===== src/Reality/TlsWrapper.antt =====
-- `authenticate` of ghost-reality/src/tls_wrapper.rs, over the TLS stream, and against the server of
-- reality_server.rs.
use reliz_protocol.Base.{
  ℕ, ◌-◌, ◌≤◌, ◌≡◌, refl, ap, ◌∙◌, List, [], ◌∷◌, All, Bool, true, ◌||◌, length, ok, err,
  if◌then◌else◌,
}
use reliz_protocol.Base.Bytes.{IsByte}
use reliz_protocol.Base.Io.{Ending, Read, chunk, read_error}
use reliz_protocol.Base.Utf8.{Str, chars, utf8, from_utf8_lossy}
use reliz_protocol.Base.Search.{behind, strip_prefix}
use reliz_protocol.Conn.{Failure, Handler, message, io, fail, ◌>>◌, send}
use reliz_protocol.Conn.Laws.{at, send_lem}
use reliz_protocol.Client.Reality.{request, any_text, contains_text}
use reliz_protocol.Server.Reality.Auth.{IsPlain}
use reliz_protocol.Reality.{create_auth_token, handle_tls_connection, stub}
use reliz_protocol.Reality.Agreement.{handle_tls-create_auth_token}

-- `AuthFailed`, and the error behind an answer that was accepted.
abbrev pub auth_failed : Failure
auth_failed = message (chars "client authentication failed: invalid auth token")

abbrev pub no_extraction : Failure
no_extraction = message (
    chars "TLS handshake failed: underlying TCP extraction not supported in current implementation")

pub is_accepted : List ℕ → Bool
is_accepted bytes =
    let response = from_utf8_lossy bytes in
    contains_text (chars "200 OK") response || contains_text (chars "Ghost Proxy") response

answered : Read → Handler (Unit {0})
answered read_error = fail io
answered (chunk []) = fail auth_failed
answered (chunk (b ∷ bytes)) =
    if is_accepted (b ∷ bytes) then fail no_extraction else fail auth_failed

pub authenticate : Str → List ℕ → Read → Handler (Unit {0})
unfolding answered
authenticate mask_domain auth_key response = do
  send (utf8 (request mask_domain (create_auth_token auth_key)))
  answered response

stub_accepted : is_accepted stub ≡ true
unfolding is_accepted contains_text any_text behind strip_prefix from_utf8_lossy
stub_accepted = refl

-- The client of ghost-reality does not get a stream from the server that knows it: on its request,
-- for a domain without a capital X and with the server's key of 32 bytes, the server answers with
-- its placeholder for a recognised client, and when one read gives that the client ends with the
-- error of the extraction. Both connections take what is written.
pub authenticate-handle_tls :
    (d mask_domain : Str) (auth_key : List ℕ) (e : Ending) (room room' : ℕ)
    → IsPlain d
    → All IsByte auth_key
    → length auth_key ≡ 32
    → length stub ≤ room
    → length (utf8 (request d (create_auth_token auth_key))) ≤ room'
    → let asked = utf8 (request d (create_auth_token auth_key)) in
      let (answer, c) =
        handle_tls_connection auth_key mask_domain (chunk asked) (at [] e [] room) in
      (answer ≡ ok tt)
      × (authenticate d auth_key (chunk c.output.written) (at [] e [] room')
          ≡ (err no_extraction, at [] e asked (room' - length asked)))
authenticate-handle_tls d mask_domain auth_key e room room' plain bytes len space space' =
    let served =
      handle_tls-create_auth_token d mask_domain auth_key [] e [] room plain bytes len space in
    (
      ap (λ t. t.0) served,
      ap (λ t. authenticate d auth_key (chunk t.1.output.written) (at [] e [] room')) served
          ∙ heard,
    )
  where
    heard : authenticate d auth_key (chunk stub) (at [] e [] room') ≡ (
      err no_extraction,
      at [] e
          (utf8 (request d (create_auth_token auth_key)))
          (room' - length (utf8 (request d (create_auth_token auth_key)))),
    )
    heard =
        unfold authenticate in
        rw (
          send_lem e [] room' (utf8 (request d (create_auth_token auth_key))) [] space',
          stub_accepted,
        )
