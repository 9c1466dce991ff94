-- ===== src/Gateway/Auth/Front.antt =====
-- gatewayService of apiGateway/internal/service/gatewayService.go, as far as it signs in and out.
use simply_chat.Base.{String, pure, ◌>>=◌}
use simply_chat.Gateway.Auth.{AuthTokens, User, AuthServer}
use simply_chat.Gateway.Auth.Service
use simply_chat.Gateway.Auth.Client.{Call}

module _ (server : AuthServer) where
  abbrev pub login : User → Call server AuthTokens
  login user = do tokens ← Service.login server user; pure tokens

  abbrev pub register : User → Call server AuthTokens
  register user = do tokens ← Service.register server user; pure tokens

  abbrev pub logout : String → Call server (Unit {0})
  logout refresh_token = Service.logout server refresh_token

  abbrev pub update_tokens : String → Call server AuthTokens
  update_tokens refresh_token = do tokens ← Service.update_tokens server refresh_token; pure tokens
