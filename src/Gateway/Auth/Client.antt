-- ===== src/Gateway/Auth/Client.antt =====
-- apiGateway/internal/client/authClient.go: the calls of the auth service.
use simply_chat.Base.{String, Option, none, some, Result, ok, err, Exec, or_raise, ◌>>=◌}
use simply_chat.Gateway.Auth.{AuthTokens, User, AuthError, rpc_failed, nil_dereference, AuthServer}

module _ (server : AuthServer) where
  abbrev pub Call : Type 0 → Type 0
  Call A = Exec server.Accounts AuthError A

  abbrev pub answered :
      {A : Type 0} → Option A × server.Accounts → Result AuthError A × server.Accounts
  answered (none, s) = (err rpc_failed, s)
  answered (some a, s) = (ok a, s)

  unfoldable pub login : User → Call AuthTokens
  login user = do
    name ← or_raise nil_dereference user.login
    password ← or_raise nil_dereference user.password
    λ s. answered (server.login name password s)

  unfoldable pub register : User → Call AuthTokens
  register user = do
    name ← or_raise nil_dereference user.login
    password ← or_raise nil_dereference user.password
    email ← or_raise nil_dereference user.email
    λ s. answered (server.register name password email s)

  unfoldable pub logout : String → Call (Unit {0})
  logout refresh_token s = answered (server.logout refresh_token s)

  unfoldable pub update_tokens : String → Call AuthTokens
  update_tokens refresh_token s = answered (server.update_tokens refresh_token s)
