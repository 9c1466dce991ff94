-- ===== src/Gateway/ChatHandler.antt =====
-- apiGateway/internal/handler/chatHandler.go. The answer is what is done with the request: it is
-- proxied to another service, or becomes a websocket for a login.
pub mod Access
pub mod Sender
use Prim.Native.String.{◌++◌}
use simply_chat.Base.{
  ℕ, String, Bool, true, false, not, Option, none, some, Result, ok, err, Exec, map_err, lift,
  guard, or_raise, pure, continue, ◌>>=◌, ◌>>◌, ◌==◌, string_eq,
}
use simply_chat.Gateway.Tokens.{AccessToken, TokenError}
use simply_chat.Gateway.Requests.{CookieError, Request, Refusal, status}
use simply_chat.Gateway.MessageClient
use simply_chat.Gateway.MessageClient.{MessageServer, ClientError}

-- net/url: `host` is the host of the URL that a text parses to.
pub record Urls : Type 1 where
  pub Values : Type 0
  pub parse_query : String → Values
  pub get : String → Values → String
  pub set : String → String → Values → Values
  pub encode : Values → String
  pub host : String → Option String

-- What the reverse proxy sends, apart from the method, the headers and the body, which it copies.
pub record Forwarded : Type 0 where
  pub host : String
  pub path : String
  pub raw_query : String

-- gorilla/websocket: the status with which an upgrade is refused, none where it succeeds.
abbrev pub Upgrader : Type 0
Upgrader = Request → Option ℕ

abbrev is_ok : {A : Type 0} → Result ClientError A → Bool
is_ok (ok _) = true
is_ok (err _) = false

abbrev upgrade_error : Option ℕ → Result Refusal (Unit {0})
upgrade_error none = ok tt
upgrade_error (some code) = err (status code)

module _ (urls : Urls) (messages : MessageServer)
    (validate : String → Result TokenError AccessToken) where
  abbrev pub Handled : Type 0 → Type 0
  Handled A = Exec messages.Remote Refusal A

  unfoldable pub get_validated_access_token : Request → Handled AccessToken
  get_validated_access_token r = do
    access_token ← lift (map_err (λ (e : CookieError). status 400) (r.cookie "access_token"))
    lift (map_err (λ (e : TokenError). status 400) (validate access_token))

  -- The gateway's CanAccessFile, which hands on to the client.
  abbrev can_access_file : String → String → Handled Bool
  can_access_file login file_id s =
      let (r, t) = MessageClient.can_access_file messages login file_id s in
      (map_err (λ (e : ClientError). status 502) r, t)

  unfoldable pub ensure_file_access : Request → String → Handled (Unit {0})
  ensure_file_access r login = do
    guard (not (r.file_id == "")) (status 400)
    allowed ← can_access_file login r.file_id
    guard allowed (status 403)

  unfoldable pub proxy_request : Request → String → Handled Forwarded
  proxy_request r target = do
    host ← or_raise (status 500) (urls.host target)
    pure (record { host = host; path = r.path; raw_query = r.raw_query })

  -- The start of WsProxy for this login: whether there is a connection to the message service, without
  -- which the one of the user is closed.
  abbrev get_msg_service_conn : String → Handled Bool
  get_msg_service_conn login s =
      let (r, t) = MessageClient.connect_to_message_service messages login s in (ok (is_ok r), t)

  -- The login that the chat is for, and whether messages are passed on (WsProxy has its loops).
  unfoldable pub connect_to_chat : Upgrader → Request → Handled (String × Bool)
  connect_to_chat upgrade r = do
    get_validated_access_token r
    let login = urls.get "login" (urls.parse_query r.raw_query)
    lift (upgrade_error (upgrade r))
    connected ← get_msg_service_conn login
    pure (login, connected)

  unfoldable pub upload_file_message : Request → Handled Forwarded
  upload_file_message r = do
    token ← get_validated_access_token r
    let query = urls.set "login" token.login (urls.parse_query r.raw_query)
    proxy_request (record r { raw_query = urls.encode query }) ("http://" ++ messages.addr)

  unfoldable pub content_file : String → Request → Handled Forwarded
  content_file file_service_addr r = do
    token ← get_validated_access_token r
    ensure_file_access r token.login
    proxy_request r ("http://" ++ file_service_addr)

  unfoldable pub download_file : String → Request → Handled Forwarded
  download_file file_service_addr r = do
    token ← get_validated_access_token r
    ensure_file_access r token.login
    proxy_request r ("http://" ++ file_service_addr)
