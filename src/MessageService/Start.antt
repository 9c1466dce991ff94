-- ===== src/MessageService/Start.antt =====
-- messageService/internal/app/app.go, InitDb and the pool of
-- messageService/internal/storage/postgres/postgres.go, and NewChatMemberStorage of
-- internal/storage/redis/chatMembersStorage.
use simply_chat.Base.{
  ℕ, ℤ, String, true, ◌≡◌, ◌↔◌, refl, sym, ap, ◌∙◌, List, [], ◌∷◌, ◌++◌, Option, ok, pure, lift,
  map_err, ◌>>=◌, ◌>>◌, Result-cases, Bool-cases, inl, inr, arith,
}
use simply_chat.Start.{
  config, database, redis, returned, exited, Step, opened, postgres_pool, redis_client, Starting,
  step, require, Drivers,
}
use simply_chat.MessageService.Config.{Config, ConfigError, load_config}

-- How the pool is set up: its connections, and how long one is kept, in hours.
pub record Pool : Type 0 where
  pub addr : String
  pub max_conns : ℕ
  pub min_conns : ℕ
  pub max_conn_lifetime : ℕ

pub record App : Type 0 where
  pub config : Config
  pub db : Pool
  pub members_redis : String
  pub file_client_url : String
  pub file_client_timeout : ℤ

abbrev pub pool_of : String → Pool
pool_of db_addr = record { addr = db_addr; max_conns = 20; min_conns = 1; max_conn_lifetime = 1 }

abbrev pub app_of : Config → App
app_of c = record {
  config = c;
  db = pool_of c.db_url;
  members_redis = c.redis_addr;
  file_client_url = c.file_service_url;
  file_client_timeout = c.file_service_upload_timeout;
}

module _ (drivers : Drivers) where
  -- The process exits where the database cannot be reached.
  unfoldable pub init_db : String → Starting Pool
  init_db db_addr = do
    require (drivers.parse_config db_addr) (exited database)
    require (drivers.new_with_config db_addr) (exited database)
    step (opened (postgres_pool db_addr))
    require (drivers.ping_postgres db_addr) (exited database)
    pure (pool_of db_addr)

  unfoldable pub new_chat_member_storage : String → Starting String
  new_chat_member_storage redis_addr = do
    step (opened (redis_client redis_addr))
    require (drivers.ping_redis redis_addr) (returned redis)
    pure redis_addr

  module _ (getenv : String → String) (duration_of : String → Option ℤ) where
    unfoldable pub new_app : Starting App
    new_app = do
      cfg ← lift (map_err (λ (x : ConfigError). returned config) (load_config getenv duration_of))
      db_conn_pool ← init_db cfg.db_url
      members ← new_chat_member_storage cfg.redis_addr
      pure (record (app_of cfg) { db = db_conn_pool; members_redis = members })

    -- The databases answer at these addresses.
    abbrev pub IsReachable : Config → Type 0
    IsReachable c =
        (drivers.parse_config c.db_url ≡ true)
        × (drivers.new_with_config c.db_url ≡ true)
        × (drivers.ping_postgres c.db_url ≡ true)
        × (drivers.ping_redis c.redis_addr ≡ true)

    abbrev pub connections : Config → List Step
    connections c = opened (redis_client c.redis_addr) ∷ opened (postgres_pool c.db_url) ∷ []

    started :
        (s : List Step) (c : Config)
        → load_config getenv duration_of ≡ ok c
        → IsReachable c
        → new_app s ≡ (ok (app_of c), connections c ++ s)
    unfolding new_app init_db new_chat_member_storage
    started s c loads (parses, makes, pings, redis_pings) =
        rw (loads, parses, makes, pings, redis_pings) refl

    reached :
        (s : List Step) (c : Config) (app : App)
        → load_config getenv duration_of ≡ ok c
        → (new_app s).0 ≡ ok app
        → IsReachable c
    unfolding new_app init_db new_chat_member_storage
    reached s c app loads h = elim (Bool-cases (drivers.parse_config c.db_url)) [
      | inr bad ↦ absurd (ground (arith, rw (loads, bad) at h))
      | inl parses ↦ elim (Bool-cases (drivers.new_with_config c.db_url)) [
        | inr bad ↦ absurd (ground (arith, rw (loads, parses, bad) at h))
        | inl makes ↦ elim (Bool-cases (drivers.ping_postgres c.db_url)) [
          | inr bad ↦ absurd (ground (arith, rw (loads, parses, makes, bad) at h))
          | inl pings ↦ elim (Bool-cases (drivers.ping_redis c.redis_addr)) [
            | inr bad ↦ absurd (ground (arith, rw (loads, parses, makes, pings, bad) at h))
            | inl redis_pings ↦ (parses, makes, pings, redis_pings)
          ]
        ]
      ]
    ]

    -- The message service starts just where its configuration loads and both databases answer; it is
    -- then set up from this configuration, with a connection to each.
    pub new_app-App :
        (s t : List Step) (app : App)
        → (new_app s ≡ (ok app, t)) ↔ (
            (c : Config) × (load_config getenv duration_of ≡ ok c)
            × IsReachable c
            × (app ≡ app_of c)
            × (t ≡ connections c ++ s))
    unfolding new_app
    new_app-App s t app = (
      λ h. elim (Result-cases (load_config getenv duration_of)) [
        | inr (x, failed) ↦ absurd (ground (arith, rw failed at h))
        | inl (c, loads) ↦
            let reach = reached s c app loads (ap (λ x. x.0) h) in
            let same = sym (started s c loads reach) ∙ h in
            (c, loads, reach, ground (arith, same), ground (arith, same))
      ],
      λ (c, loads, reach, same, steps). started s c loads reach ∙ rw (same, steps) refl,
    )
