-- ===== src/Tests/Gateway.antt =====
-- The gateway: signing in, tokens, files and the websocket.
use simply_chat.Base.{
  ℕ, suc, pos, String, Bool, true, false, ◌≡◌, ◌↔◌, refl, sym, Option, none, some, Result, ok, err,
  arith, trim_space, string_eq, ne-of_==-false, ◌==◌, inl, if◌then◌else◌,
}
use mathlib.Core.Path.{subst}
use simply_chat.MessageStorage.Messages.{user_has_access_to_file}
use simply_chat.MessageService.Http.{
  check_file_access, parse_file_id, matches_uuid, can_access_file, status_of,
}
use simply_chat.MessageService.Http.Access.{IsReadable}
use simply_chat.Gateway.Auth.{AuthServer, AuthTokens, User}
use simply_chat.Gateway.Tokens.{
  Jwt, JwtToken, Claim, text, number, other, AccessToken, TokenError, wrong_token,
  validate_access_token, trim_prefix,
}
use simply_chat.Gateway.Tokens.Certified.{Certified, validate_access_token-Certified}
use simply_chat.Gateway.Requests.{CookieError, no_cookie, Request, status}
use simply_chat.Gateway.AuthHandler
use simply_chat.Gateway.AuthHandler.SignIn.{Ends, login_call, register_call, sign_in-SignIn}
use simply_chat.Gateway.AuthHandler.Session.{renewed, ended, session-cookies_of}
use simply_chat.Gateway.MessageClient
use simply_chat.Gateway.MessageClient.{MessageServer, access_target}
use simply_chat.Gateway.ChatHandler
use simply_chat.Gateway.ChatHandler.{Urls, Upgrader, Forwarded, content_file}
use simply_chat.Gateway.ChatHandler.Access.{
  Bearer, asked, content_file-IsReadable, content_file-status,
}
use simply_chat.Tests.Fixtures.{healthy, healthy-IsHealthy, server}
use simply_chat.Tests.Messages.{redis, shared, file_id}

abbrev tokens : AuthTokens
tokens = record { access_token = "good"; refresh_token = "again" }

abbrev given : Bool → ℕ → Option AuthTokens × ℕ
given granted calls = (if granted then some tokens else none, suc calls)

-- An auth service that counts its calls, and knows one password.
abbrev accounts : AuthServer
accounts = record {
  Accounts = ℕ;
  login = λ name password. given (password == "secret");
  register = λ name password email. given (email == "bob@chat");
  logout = λ refresh_token calls. (some tt, suc calls);
  update_tokens = λ refresh_token. given (refresh_token == "again");
}

abbrev pub bob : User
bob = record { uid = none; login = some "bob"; email = none; password = some "secret"; role = none }

abbrev cookie : String → Result CookieError String
cookie name =
    if name == "access_token"
    then ok "good"
    else if name == "refresh_token"
    then ok "again"
    else err no_cookie

abbrev pub request : Request
request = record {
  content_type = "application/json";
  body = some (some bob);
  cookie = cookie;
  path = "/files/a/content";
  raw_query = "";
  file_id = file_id;
}

sign_in_example :
    Ends accounts
      (λ u. login_call accounts u.login u.password)
      request
      0
      (AuthHandler.login accounts request 0)
    × Ends accounts
        (λ u. register_call accounts u.login u.password u.email)
        request
        0
        (AuthHandler.register accounts request 0)
sign_in_example = sign_in-SignIn accounts request 0

abbrev pub bearer_of : String → AccessToken
bearer_of login = record { uid = "u1"; login = login; user_role = "user"; exp = pos 200 }

abbrev pub validate : String → Result TokenError AccessToken
validate access_token = if access_token == "good" then ok (bearer_of "bob") else err wrong_token

session_example :
    (((AuthHandler.handle_check_auth validate request tt).0 ≡ ok tt)
      ↔ ((t : AccessToken) × (validate "good" ≡ ok t)))
    × ((AuthHandler.handle_update_tokens accounts request 1).1 ≡ 2)
    × ((AuthHandler.logout accounts request 1).1 ≡ 2)
    × ((AuthHandler.handle_update_tokens accounts request 1).0
        ≡ renewed (accounts.update_tokens "again" 1).0)
    × ((AuthHandler.logout accounts request 1).0 ≡ ended (accounts.logout "again" 1).0)
session_example =
    session-cookies_of accounts validate tokens request 1 (ne-of_==-false "good" "" refl)
      (ne-of_==-false "again" "" refl) (refl, (refl, tt))

abbrev claims : String → Claim
claims name =
    if name == "uid"
    then text "u1"
    else if name == "login"
    then text "bob"
    else if name == "userRole"
    then text "user"
    else if name == "exp"
    then number (pos 200)
    else other

abbrev keyed : Option String → String → Option JwtToken
keyed none word = none
keyed (some key) word =
    if word == "good" then some (record { claims = some claims; valid = key == "key" }) else none

-- One token, which is signed with the key by RSA.
abbrev pub jwt : Jwt
jwt = record {
  Method = Bool;
  Key = String;
  is_rsa = λ method. method;
  parse = λ word key_of. keyed (key_of true) word;
}

token_example :
    (validate_access_token jwt (λ u. some u) "key" (pos 100) "Bearer good" ≡ ok (bearer_of "bob"))
    ↔ Certified jwt (λ u. some u) "key" (pos 100) "Bearer good" (bearer_of "bob")
token_example =
    validate_access_token-Certified jwt (λ u. some u) "key" (pos 100) "Bearer good"
      (bearer_of "bob")

pub accepted :
    validate_access_token jwt (λ u. some u) "key" (pos 100) "Bearer good" ≡ ok (bearer_of "bob")
unfolding validate_access_token trim_prefix
accepted = refl

-- The message service answers what its handler answers for bob and the file that was shared.
abbrev pub access_status : ℕ
access_status =
    status_of 204 (check_file_access healthy redis server (asked "bob" file_id) shared).0

abbrev pub messages : MessageServer
messages = record {
  Remote = Unit {0};
  addr = "messages";
  path_escape = λ s. s;
  query_escape = λ s. s;
  is_target = λ _. true;
  get = λ target s. (some access_status, s);
  dial = λ target s. (true, s);
}

-- A query is the login that it names.
abbrev pub urls : Urls
urls = record {
  Values = String;
  parse_query = λ q. q;
  get = λ key v. v;
  set = λ key v q. v;
  encode = λ v. v;
  host = λ target. some target;
}

bob-Bearer : Bearer urls messages validate request (bearer_of "bob")
bob-Bearer = record { access_token = "good"; sent = refl; valid = refl }

access_is_204 : access_status ≡ 204
unfolding check_file_access parse_file_id matches_uuid can_access_file user_has_access_to_file
    trim_space
access_is_204 = refl

of_bob :
    (token : AccessToken) → Bearer urls messages validate request token → token ≡ bearer_of "bob"
of_bob token b = ground (arith, b.sent, b.valid)

routed :
    (token : AccessToken)
    → Bearer urls messages validate request token
    → some access_status ≡ some 204
    → status_of 204 (check_file_access healthy redis server (asked token.login file_id) shared).0
      ≡ 204
routed token b answered =
    subst
      (λ (t : AccessToken).
        status_of 204 (check_file_access healthy redis server (asked t.login file_id) shared).0
        ≡ 204)
      (sym (of_bob token b)) access_is_204

abbrev pub served : Forwarded
served = record { host = "http://files"; path = "/files/a/content"; raw_query = "" }

pub passes : (content_file urls messages validate "files" request tt).0 ≡ ok served
unfolding content_file ChatHandler.get_validated_access_token ChatHandler.ensure_file_access
    ChatHandler.proxy_request MessageClient.can_access_file check_file_access parse_file_id
    matches_uuid can_access_file user_has_access_to_file trim_space
passes = refl

content_example :
    (token : AccessToken) × Bearer urls messages validate request token
    × ((f id : String) × (healthy.uuid (trim_space f) ≡ some id)
        × (parse_file_id (asked token.login file_id) ≡ ok f)
        × IsReadable shared.online.sources.db.tables (trim_space token.login) id)
    × (urls.host "http://files" ≡ some served.host)
    × (served.path ≡ request.path)
    × (served.raw_query ≡ request.raw_query)
content_example =
    content_file-IsReadable urls messages validate healthy redis server "files" request tt shared
      served routed (inl passes)

bob_named : (trim_space "bob" == "") ≡ false
unfolding trim_space
bob_named = refl

id_parsed : parse_file_id (asked "bob" file_id) ≡ ok file_id
unfolding parse_file_id matches_uuid trim_space
id_parsed = refl

id_is_uuid : healthy.uuid (trim_space file_id) ≡ some file_id
unfolding trim_space
id_is_uuid = refl

content_status_example :
    let answer = (content_file urls messages validate "files" request tt).0 in
    (IsReadable shared.online.sources.db.tables (trim_space "bob") file_id → answer ≡ ok served)
    × (¬ IsReadable shared.online.sources.db.tables (trim_space "bob") file_id
        → answer ≡ err (status 403))
content_status_example =
    content_file-status urls messages validate healthy redis server "files" "http://files" file_id
      file_id request tt shared (bearer_of "bob") healthy-IsHealthy bob-Bearer bob_named refl refl
      refl id_parsed id_is_uuid refl
