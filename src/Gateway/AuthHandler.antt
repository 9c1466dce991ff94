-- ===== src/Gateway/AuthHandler.antt =====
-- apiGateway/internal/handler/authHandler.go. The answer of a handler is the cookies that it sets,
-- with the status 200.
pub mod SignIn
pub mod Session
use simply_chat.Base.{
  ℕ, ℤ, String, Bool, true, false, not, ◌||◌, Option, none, some, List, [], ◌∷◌, ◌++◌, Result, ok,
  err, Exec, map_err, lift, guard, or_raise, raise, pure, continue, ◌>>=◌, ◌>>◌, ◌==◌, string_eq,
}
use simply_chat.Gateway.Auth.{AuthTokens, User, AuthServer, AuthError}
use simply_chat.Gateway.Auth.Front
use simply_chat.Gateway.Auth.Client.{Call}
use simply_chat.Gateway.Tokens.{AccessToken, TokenError}
use simply_chat.Gateway.Cookies.{
  Cookie, set_access_token_cookie, set_refresh_token_cookie, delete_cookie,
}
use simply_chat.Gateway.Requests.{
  CookieError, no_cookie, unreadable, Request, Refusal, status, panicked, refusal,
}

abbrev missing : Option String → Bool
missing none = true
missing (some text) = false

module _ (server : AuthServer) where
  abbrev pub Handled : Type 0 → Type 0
  Handled A = Exec server.Accounts Refusal A

  -- What a call returns, its error as a refusal.
  abbrev pub called : {A : Type 0} → Call server A → Handled A
  called m s = let (r, t) = m s in (map_err (refusal 500) r, t)

  unfoldable pub login : Request → Handled (List Cookie)
  login r = do
    guard (r.content_type == "application/json") (status 400)
    body ← or_raise (status 400) r.body
    user ← or_raise panicked body
    guard (not (missing user.login || missing user.password)) (status 400)
    tokens ← called (Front.login server user)
    pure (
        set_access_token_cookie tokens.access_token
        ++ set_refresh_token_cookie tokens.refresh_token)

  unfoldable pub register : Request → Handled (List Cookie)
  register r = do
    guard (r.content_type == "application/json") (status 400)
    body ← or_raise (status 400) r.body
    user ← or_raise panicked body
    guard (not (missing user.login || missing user.password || missing user.email)) (status 400)
    tokens ← called (Front.register server user)
    pure (
        set_access_token_cookie tokens.access_token
        ++ set_refresh_token_cookie tokens.refresh_token)

  unfoldable pub logout : Request → Handled (List Cookie)
  logout r = do
    refresh_token ← lift (map_err (λ _. status 500) (r.cookie "refresh_token"))
    guard (not (refresh_token == "")) (status 400)
    called (Front.logout server refresh_token)
    pure (delete_cookie "access_token" ++ delete_cookie "refresh_token")

  unfoldable pub handle_update_tokens : Request → Handled (List Cookie)
  handle_update_tokens r = do
    refresh_token ← lift (map_err (λ _. status 400) (r.cookie "refresh_token"))
    tokens ← called (Front.update_tokens server refresh_token)
    pure (set_access_token_cookie tokens.access_token)

-- Why a cookie is not read: without it the client has to sign in.
abbrev cookie_refusal : CookieError → Refusal
cookie_refusal no_cookie = status 401
cookie_refusal unreadable = status 500

-- `validate` is the gateway's ValidateAccessToken.
unfoldable pub handle_check_auth :
    (String → Result TokenError AccessToken) → Request → Exec (Unit {0}) Refusal (Unit {0})
handle_check_auth validate r = do
  access_token ← lift (map_err cookie_refusal (r.cookie "access_token"))
  guard (not (access_token == "")) (status 401)
  lift (map_err (λ _. status 401) (validate access_token))
  pure tt
