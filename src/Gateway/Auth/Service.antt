-- ===== src/Gateway/Auth/Service.antt =====
-- The services between a handler and the client: authService of
-- apiGateway/internal/service/authService.go, and gatewayService of gatewayService.go, which hands
-- everything on to it.
use simply_chat.Base.{String, pure, ◌>>=◌}
use simply_chat.Gateway.Auth.{AuthTokens, User, AuthServer}
use simply_chat.Gateway.Auth.Client
use simply_chat.Gateway.Auth.Client.{Call}

module _ (server : AuthServer) where
  abbrev pub login : User → Call server AuthTokens
  login user = do tokens ← Client.login server user; pure tokens

  abbrev pub register : User → Call server AuthTokens
  register user = do tokens ← Client.register server user; pure tokens

  abbrev pub logout : String → Call server (Unit {0})
  logout refresh_token = Client.logout server refresh_token

  abbrev pub update_tokens : String → Call server AuthTokens
  update_tokens refresh_token = do tokens ← Client.update_tokens server refresh_token; pure tokens
