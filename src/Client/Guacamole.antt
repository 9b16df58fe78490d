-- ===== src/Client/Guacamole.antt =====
-- client/guacamole.go: the token that Guacamole gives for a name and a password.
use kws_control.Common.{
  ℕ, Bool, ◌&&◌, ◌||◌, Option, none, some, [], ◌∷◌, ◌++◌, ◌==◌, ◌-◌, ◌+◌, ◌/◌, ◌%◌, leb, ltb,
  if◌then◌else◌,
}
use kws_control.Common.Text.{GoString, codes}
use kws_control.Client.Http.{Http, post, Request}
use kws_control.Client.Cms.{read_ok}

-- A byte that `url.QueryEscape` leaves as it is
abbrev pub is_unreserved : ℕ → Bool
is_unreserved c =
    (leb b'a' c && leb c b'z')
    || (leb b'A' c && leb c b'Z')
    || (leb b'0' c && leb c b'9')
    || c == b'-'
    || c == b'_'
    || c == b'.'
    || c == b'~'

abbrev upper_hex : ℕ → ℕ
upper_hex d = if ltb d 10 then b'0' + d else b'A' + (d - 10)

-- `url.QueryEscape`
unfoldable pub query_escape : GoString → GoString
query_escape [] = []
query_escape (c ∷ s) =
    let rest = query_escape s in
    if is_unreserved c
    then c ∷ rest
    else if c == 32
    then b'+' ∷ rest
    else b'%' ∷ upper_hex (c / 16) ∷ upper_hex (c % 16) ∷ rest

-- `url.Values.Encode` of the two values, in the order of their keys
unfoldable pub token_form : GoString → GoString → GoString
token_form username password =
    codes "password=" ++ query_escape password ++ codes "&username=" ++ query_escape username

abbrev pub token_request : GoString → GoString → GoString → Request
token_request base_url username password = record {
  method = post;
  url = base_url ++ codes "/api/tokens";
  headers = (codes "Content-Type", codes "application/x-www-form-urlencoded") ∷ [];
  body = some (token_form username password);
}

-- `Authenticate` and then `AuthToken`; `decode` reads the token in an answer.
unfoldable pub authenticate :
    Http → (GoString → Option GoString) → GoString → GoString → GoString → Option GoString
authenticate http decode base_url username password =
    if http.new_request post (base_url ++ codes "/api/tokens")
    then read_ok decode (http.exchange (token_request base_url username password))
    else none
