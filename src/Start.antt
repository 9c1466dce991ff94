-- ===== src/Start.antt =====
-- What the starts of the three services share: how a start ends without a service, and the
-- connections that it opens and closes. The drivers are parameters.
use simply_chat.Base.{String, Bool, List, ◌∷◌, ok, err, Exec, if◌then◌else◌}

pub data Cause : Type 0 where
  config database storage redis grpc public_key : Cause

-- NewApp returns an error, which main logs and exits with; log.Fatal exits at once.
pub data Failed : Type 0 where
  returned : Cause → Failed
  exited : Cause → Failed

pub data Connection : Type 0 where
  postgres_pool : String → Connection
  redis_client : String → Connection
  grpc_client : String → Connection

pub data Step : Type 0 where
  opened : Connection → Step
  closed : Connection → Step

-- The steps so far, the last one first.
abbrev pub Starting : Type 0 → Type 0
Starting A = Exec (List Step) Failed A

abbrev pub step : Step → Starting (Unit {0})
step e s = (ok tt, e ∷ s)

-- What goes on where the test holds, and fails so where not.
abbrev pub require : Bool → Failed → Starting (Unit {0})
require holds e s = if holds then (ok tt, s) else (err e, s)

-- pgxpool and go-redis, by the address that they are given.
pub record Drivers : Type 0 where
  pub parse_config : String → Bool
  pub new_with_config : String → Bool
  pub ping_postgres : String → Bool
  pub ping_redis : String → Bool
