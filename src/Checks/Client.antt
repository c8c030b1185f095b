-- ===== src/Checks/Client.antt =====
-- User ids and the SOCKS5 inbound at concrete inputs.
use reliz_protocol.Base.{
  some, concat, ◌++◌, ℕ, ◌≡◌, refl, List, [], ◌∷◌, length, replicate, All, arith, true, false, ok,
  err, panic,
}
use reliz_protocol.Base.Bytes.{IsByte}
use reliz_protocol.Base.Io.{closed}
use reliz_protocol.Base.Utf8.{Str, chars, utf8}
use reliz_protocol.Base.Hex.{hex_encode, hex_pair, hex_pairs, without_dashes}
use reliz_protocol.Conn.{message}
use reliz_protocol.Conn.Laws.{at}
use reliz_protocol.Client.Fragment.Whole.Progress.{IsWritten, fragmented_write-IsWritten}
use reliz_protocol.Client.Fragment.Whole.{Awaited, fragmented_write}
use reliz_protocol.Client.Socks.Heard.{IsHeard, handle_socks5-IsHeard}
use reliz_protocol.Client.UserId.{parse_user_id, parse_user_id-hex_encode, parse_user_id-IsUserId}
use reliz_protocol.Client.Fragment.{FragmentedStream, Answer, accepts, not_ready, offer, poll_write}
use reliz_protocol.Client.Fragment.Order.{AreSmall, concat-offer, offer-AreSmall, offer_complete}
use reliz_protocol.Client.Socks.{handle_socks5_client, any_no_auth}
use reliz_protocol.Client.Socks.Runs
use reliz_protocol.Client.Socks.Target
use reliz_protocol.Checks.Common.{site, site-IsTarget}

abbrev pub some_id : List ℕ
some_id = replicate 16 0xa5

parse_user_id-hex_encode_example : parse_user_id (hex_encode some_id) ≡ ok some_id
parse_user_id-hex_encode_example = parse_user_id-hex_encode some_id refl (omega arith)

abbrev dashed : Str
dashed = chars "01020304-0506-0708-090A-0b0c0d0e0f10"

abbrev one_to_sixteen : List ℕ
one_to_sixteen = 1 ∷ 2 ∷ 3 ∷ 4 ∷ 5 ∷ 6 ∷ 7 ∷ 8 ∷ 9 ∷ 10 ∷ 11 ∷ 12 ∷ 13 ∷ 14 ∷ 15 ∷ 16 ∷ []

dashed_parses : parse_user_id dashed ≡ ok one_to_sixteen
unfolding parse_user_id hex_pair hex_pairs without_dashes utf8
dashed_parses = refl

parse_user_id-IsUserId_run : (length one_to_sixteen ≡ 16) × All IsByte one_to_sixteen
parse_user_id-IsUserId_run = parse_user_id-IsUserId dashed one_to_sixteen dashed_parses

no_auth_only : any_no_auth (2 ∷ 0 ∷ []) ≡ true
unfolding any_no_auth
no_auth_only = refl

password_only : any_no_auth (2 ∷ []) ≡ false
unfolding any_no_auth
password_only = refl

site_fits : Target.FitsBuffer site
unfolding utf8
site_fits = omega arith

handle_socks5-accepts_example :
    handle_socks5_client (at (Target.dialogue (2 ∷ 0 ∷ []) 0 site (chars "GET")) closed [] 100)
    ≡ (ok site, at (chars "GET") closed (5 ∷ 0 ∷ Target.success_reply) 88)
handle_socks5-accepts_example =
    Runs.handle_socks5-accepts closed [] 100 (2 ∷ 0 ∷ []) 0 site (chars "GET") no_auth_only
      (omega arith) site-IsTarget site_fits (omega arith)

handle_socks5_domain_panics_example :
    (handle_socks5_client
      (at (5 ∷ 2 ∷ 2 ∷ 0 ∷ 5 ∷ 1 ∷ 0 ∷ 3 ∷ 255 ∷ replicate 257 97) closed [] 100)).0
    ≡ panic
handle_socks5_domain_panics_example =
    Runs.handle_socks5_domain_panics closed [] 100 (2 ∷ 0 ∷ []) 0 (replicate 257 97) no_auth_only
      (omega arith) (omega arith)

version_four_run :
    handle_socks5_client (at (4 ∷ 1 ∷ 0 ∷ []) closed [] 100)
    ≡ (err (message (chars "Not a SOCKS5 connection")), at (0 ∷ []) closed [] 100)
version_four_run = Runs.handle_socks5-refuses_version closed [] 100 4 1 (0 ∷ []) (omega arith)

refuses_methods_run : handle_socks5_client (at (5 ∷ 1 ∷ 2 ∷ 9 ∷ []) closed [] 100) ≡ (
  err (message (chars "Client doesn't support NO AUTH method")),
  at (9 ∷ []) closed (5 ∷ 0xff ∷ []) 98,
)
refuses_methods_run =
    Runs.handle_socks5-refuses_methods closed [] 100 (2 ∷ []) (9 ∷ []) password_only (omega arith)
      (omega arith)

refuses_command_run :
    handle_socks5_client (at (5 ∷ 2 ∷ 2 ∷ 0 ∷ 5 ∷ 3 ∷ 0 ∷ 1 ∷ 9 ∷ []) closed [] 100) ≡ (
      err (message (chars "Unsupported SOCKS5 command")),
      at (9 ∷ []) closed (5 ∷ 0 ∷ Target.unsupported_reply) 84,
    )
refuses_command_run =
    Runs.handle_socks5-refuses_command closed [] 100 3 0 1 (2 ∷ 0 ∷ []) (9 ∷ []) no_auth_only
      (omega arith) (omega arith) (omega arith)

-- The first five bytes in fragments of two.
abbrev stream : FragmentedStream
stream = record { remaining_frag_bytes = 5; fragment_size = 2; fragment_delay_ms = 5 }

abbrev answers : List Answer
answers = accepts 9 ∷ not_ready ∷ accepts 1 ∷ accepts 9 ∷ accepts 9 ∷ []

fragments_of_seven :
    (offer answers (chars "abcdefg") stream).0
    ≡ chars "ab" ∷ [] ∷ chars "c" ∷ chars "de" ∷ chars "fg" ∷ []
unfolding offer poll_write
fragments_of_seven = refl

concat-offer_example :
    let r = offer answers (chars "abcdefg") stream in concat r.0 ++ r.1.0 ≡ chars "abcdefg"
concat-offer_example = concat-offer answers (chars "abcdefg") stream

offer-AreSmall_example : AreSmall 2 5 (offer answers (chars "abcdefg") stream).0
offer-AreSmall_example = offer-AreSmall answers (chars "abcdefg") stream

offer_complete_example :
    (offer (accepts 1 ∷ accepts 3 ∷ accepts 1 ∷ []) (chars "abc") stream).1.0 ≡ []
offer_complete_example =
    offer_complete (accepts 1 ∷ accepts 3 ∷ accepts 1 ∷ []) (chars "abc") stream (omega arith)
      (omega arith) (omega arith)

handle_socks5-IsHeard_example :
    IsHeard site
      (at (Target.dialogue (2 ∷ 0 ∷ []) 0 site (chars "GET")) closed [] 100)
      (at (chars "GET") closed (5 ∷ 0 ∷ Target.success_reply) 88)
handle_socks5-IsHeard_example =
    handle_socks5-IsHeard site
      (at (Target.dialogue (2 ∷ 0 ∷ []) 0 site (chars "GET")) closed [] 100)
      (at (chars "GET") closed (5 ∷ 0 ∷ Target.success_reply) 88)
      (Runs.handle_socks5-accepts closed [] 100 (2 ∷ 0 ∷ []) 0 site (chars "GET") no_auth_only
        (omega arith) site-IsTarget site_fits (omega arith))

abbrev awaited : List Awaited
awaited = some 9 ∷ some 1 ∷ some 9 ∷ some 9 ∷ []

fragmented_write_run :
    (fragmented_write awaited (chars "abcdefg") stream).1.0
    ≡ chars "ab" ∷ chars "c" ∷ chars "de" ∷ chars "fg" ∷ []
unfolding fragmented_write
fragmented_write_run = refl

fragmented_write-IsWritten_example :
    IsWritten (chars "abc") 0 stream (fragmented_write awaited (chars "abc") stream)
fragmented_write-IsWritten_example =
    fragmented_write-IsWritten awaited (chars "abc") stream (omega arith) (omega arith)
      (omega arith)
