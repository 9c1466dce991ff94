-- ===== src/Gateway/Start.antt =====
-- apiGateway/internal/app/app.go and config/config.go, NewTokensHadnler of
-- internal/service/authService.go and GetPublicRSAKey of internal/client/authClient.go. The answers
-- of the auth service, and the decoding of its key, are parameters.
use simply_chat.Base.{
  ℕ, ℤ, suc, String, Bool, ◌≡◌, Option, some, List, ◌∷◌, ok, err, Exec, pure, or_raise, ◌>>=◌, ◌>>◌,
  if◌then◌else◌, Option-cases, Bool-cases, inl, inr, arith,
}
use simply_chat.Gateway.Tokens.{Jwt, AccessToken, validate_access_token}
use simply_chat.Gateway.Tokens.Certified.{Certified, validate_access_token-Certified}
use simply_chat.Start.{grpc, public_key, Failed, returned, exited, Step, opened, grpc_client}

pub record Config : Type 0 where
  pub gateway_addr : String
  pub auth_service_addr : String
  pub message_service_addr : String
  pub file_service_addr : String

-- No value is checked.
unfoldable pub load_config : (String → String) → Config
load_config getenv = record {
  auth_service_addr = getenv "AUTHSERVICE_ADDR";
  message_service_addr = getenv "MESSAGESERVICE_ADDR";
  file_service_addr = getenv "FILESERVICE_ADDR";
  gateway_addr = getenv "SERVICE_ADDR";
}

-- `public_rsa_key n` is the auth service's answer to the question with this number, none for an
-- error; `decode` is pem.Decode and `parse` x509.ParsePKCS1PublicKey of the block.
pub record AuthKeys (Key : Type 0) : Type 1 where
  pub Block : Type 0
  pub makes_client : String → Bool
  pub public_rsa_key : ℕ → Option String
  pub decode : String → Option Block
  pub parse : Block → Option Key

pub record Asked : Type 0 where
  pub steps : List Step
  pub questions : ℕ

abbrev pub Starting : Type 0 → Type 0
Starting A = Exec Asked Failed A

module _ {Key : Type 0} (auth : AuthKeys Key) where
  pub record App : Type 0 where
    pub config : Config
    pub tokens_key : Key
    pub auth_service_public_rsa_key : String

  abbrev ask : Asked → Option String × Asked
  ask s = (auth.public_rsa_key s.questions, record s { questions = suc s.questions })

  unfoldable pub get_public_rsa_key : Failed → Starting String
  get_public_rsa_key failed s = let (answer, t) = ask s in or_raise failed answer t

  -- The process exits where the key cannot be had.
  unfoldable pub new_tokens_handler : Starting Key
  new_tokens_handler = do
    public_key_pem ← get_public_rsa_key (exited public_key)
    block ← or_raise (exited public_key) (auth.decode public_key_pem)
    or_raise (exited public_key) (auth.parse block)

  abbrev connect : String → Starting (Unit {0})
  connect addr s =
      if auth.makes_client addr
      then (ok tt, record s { steps = opened (grpc_client addr) ∷ s.steps })
      else (err (returned grpc), s)

  unfoldable pub new_app : (String → String) → Starting App
  new_app getenv = do
    connect (load_config getenv).auth_service_addr
    key ← new_tokens_handler
    pem ← get_public_rsa_key (returned public_key)
    pure (record {
      config = load_config getenv;
      tokens_key = key;
      auth_service_public_rsa_key = pem;
    })

  -- The key of a gateway that started.
  pub record IsKeyFrom (questions : ℕ) (key : Key) : Type 0 where
    pub pem : String
    pub block : auth.Block
    pub answered : auth.public_rsa_key questions ≡ some pem
    pub decoded : auth.decode pem ≡ some block
    pub parsed : auth.parse block ≡ some key

  new_app-IsKeyFrom :
      (getenv : String → String) (s : Asked) (app : App)
      → (new_app getenv s).0 ≡ ok app
      → IsKeyFrom s.questions app.tokens_key
  unfolding new_app new_tokens_handler get_public_rsa_key
  new_app-IsKeyFrom getenv s app h =
      elim (Bool-cases (auth.makes_client (load_config getenv).auth_service_addr)) [
        | inr bad ↦ absurd (ground (arith, rw bad at h))
        | inl made ↦ elim (Option-cases (auth.public_rsa_key s.questions)) [
          | inl silent ↦ absurd (ground (arith, rw (made, silent) at h))
          | inr (pem, answered) ↦ elim (Option-cases (auth.decode pem)) [
            | inl bad ↦ absurd (ground (arith, rw (made, answered, bad) at h))
            | inr (block, decoded) ↦ elim (Option-cases (auth.parse block)) [
              | inl bad ↦ absurd (ground (arith, rw (made, answered, decoded, bad) at h))
              | inr (key, parsed) ↦ elim (Option-cases (auth.public_rsa_key (suc s.questions))) [
                | inl silent ↦
                    absurd (ground (arith, rw (made, answered, decoded, parsed, silent) at h))
                | inr (again, repeated) ↦ record {
                  pem = pem;
                  block = block;
                  answered = answered;
                  decoded = decoded;
                  parsed =
                      ground (arith, parsed, rw (made, answered, decoded, parsed, repeated) at h);
                }
              ]
            ]
          ]
        ]
      ]

-- A gateway that has started accepts an access token only where it verifies with the key that the
-- auth service gave at the start, as the first of the two answers to its questions for the key; the
-- claims are then those of the token.
pub started-Certified :
    (jwt : Jwt) (auth : AuthKeys jwt.Key) (getenv : String → String) (s : Asked) (app : App auth)
    (parse_uuid : String → Option String) (now : ℤ) (token : String) (t : AccessToken)
    → (new_app auth getenv s).0 ≡ ok app
    → validate_access_token jwt parse_uuid app.tokens_key now token ≡ ok t
    → (key : jwt.Key) × IsKeyFrom auth s.questions key × Certified jwt parse_uuid key now token t
started-Certified jwt auth getenv s app parse_uuid now token t started accepted = (
  app.tokens_key,
  new_app-IsKeyFrom auth getenv s app started,
  (validate_access_token-Certified jwt parse_uuid app.tokens_key now token t).0 accepted,
)
