-- ===== src/Gateway/Auth.antt =====
-- Signing in and out, from the gateway's service down to the auth service:
-- apiGateway/internal/client/authClient.go, service/authService.go and service/gatewayService.go
-- over models/models.go. The auth service itself, which its generated client calls, is a parameter.
pub mod Client
pub mod Service
pub mod Front
use simply_chat.Base.{String, Option}

pub record AuthTokens : Type 0 where
  pub access_token : String
  pub refresh_token : String

-- A pointer to a field is none where the field is missing.
pub record User : Type 0 where
  pub uid : Option String
  pub login : Option String
  pub email : Option String
  pub password : Option String
  pub role : Option String

-- A call fails, or a nil pointer is followed on the way to it.
pub data AuthError : Type 0 where
  rpc_failed nil_dereference : AuthError

-- The procedures of the auth service: no tokens where a call fails. The refresh token of the last two
-- travels in the metadata of the call.
pub record AuthServer : Type 1 where
  pub Accounts : Type 0
  pub login : String → String → Accounts → Option AuthTokens × Accounts
  pub register : String → String → String → Accounts → Option AuthTokens × Accounts
  pub logout : String → Accounts → Option (Unit {0}) × Accounts
  pub update_tokens : String → Accounts → Option AuthTokens × Accounts
