-- ===== src/Gateway/Requests.antt =====
-- What the handlers of apiGateway/internal/handler read of a request, and how they refuse one.
use simply_chat.Base.{ℕ, String, Option, Result}
use simply_chat.Gateway.Auth.{User, AuthError, rpc_failed, nil_dereference}

-- Why `Request.Cookie` fails.
pub data CookieError : Type 0 where
  no_cookie unreadable : CookieError

-- The body is what it decodes to: none where it does not decode, `some none` where it is null.
-- `file_id` is mux's variable of the path, "" where there is none.
pub record Request : Type 0 where
  pub content_type : String
  pub body : Option (Option User)
  pub cookie : String → Result CookieError String
  pub path : String
  pub raw_query : String
  pub file_id : String

-- The answer without what was asked for: a status, or a panic, after which net/http closes the
-- connection.
pub data Refusal : Type 0 where
  status : ℕ → Refusal
  panicked : Refusal

-- An error of a service becomes the status, a nil pointer a panic.
abbrev pub refusal : ℕ → AuthError → Refusal
refusal code rpc_failed = status code
refusal code nil_dereference = panicked
