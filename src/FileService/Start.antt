-- ===== src/FileService/Start.antt =====
-- fileService/internal/app/app.go, internal/platform/postgres/postgres.go and New of
-- internal/storage/s3storage/storage.go. Making the client of S3 is a parameter; the address and the
-- other timeouts of the server are left out.
use Prim.Native.Nat.{◌/◌}
use simply_chat.Base.{
  negsuc, ℕ, ℤ, pos, String, Bool, true, ◌≡◌, ◌↔◌, refl, sym, ap, ◌∙◌, List, ◌∷◌, Result, ok, err,
  pure, lift, map_err, ◌>>=◌, ◌>>◌, if◌then◌else◌, Result-cases, Bool-cases, map, trim_space,
  to_lower, inl, inr, arith,
}
use simply_chat.Start.{
  config, database, storage, Failed, returned, Step, opened, closed, postgres_pool, Starting, step,
  require, Drivers,
}
use simply_chat.FileService.Config.{
  Config, Environment, ConfigError, load_config, read_config, parse_csv, or_default,
}
use simply_chat.FileService.Config.Usable.{IsUsable, load_config-IsUsable}
use simply_chat.FileService.Service

pub record Storage : Type 0 where
  pub endpoint : String
  pub bucket : String
  pub operation_timeout : ℤ
  pub max_retries : ℤ

pub record App : Type 0 where
  pub database_url : String
  pub storage : Storage
  pub service : Service.Config
  pub max_file_size : ℤ
  pub read_timeout : ℤ
  pub addr : String

abbrev pub Started : Type 0
Started = Result Failed App × List Step

-- int64(ttl / time.Second); a configuration that loads has no negative one.
abbrev seconds : ℤ → ℕ
seconds (pos nanoseconds) = nanoseconds / 1000000000
seconds (negsuc n) = 0

abbrev pub storage_of : Config → Storage
storage_of c = record {
  endpoint = c.s3_endpoint;
  bucket = c.s3_bucket;
  operation_timeout = c.s3_operation_timeout;
  max_retries = c.s3_max_retries;
}

abbrev pub app_of : Config → App
app_of c = record {
  database_url = c.database_url;
  storage = storage_of c;
  service = Service.new c.max_file_size_bytes c.allowed_mime_types (seconds c.presigned_url_ttl);
  max_file_size = c.max_file_size_bytes;
  read_timeout = c.request_timeout;
  addr = c.service_addr;
}

-- What the variables of the environment ask for.
abbrev pub expected : Environment → App
expected e =
    let text : String → String = λ key. trim_space (e.getenv key) in
    record {
      database_url = text "DB_URL";
      storage = record {
        endpoint = text "S3_ENDPOINT";
        bucket = text "S3_BUCKET";
        operation_timeout =
            or_default (pos 10000000000) (e.duration_of (text "S3_OPERATION_TIMEOUT"));
        max_retries = or_default (pos 3) (e.int_of (text "S3_MAX_RETRIES"));
      };
      service = record {
        max_file_size = or_default (pos 5242880) (e.int64_of (text "MAX_FILE_SIZE_BYTES"));
        allowed_mime_type =
            map (λ t. to_lower (trim_space t)) (parse_csv (e.getenv "ALLOWED_MIME_TYPES"));
        presign_ttl_seconds =
            seconds (or_default (pos 900000000000) (e.duration_of (text "PRESIGNED_URL_TTL")));
      };
      max_file_size = or_default (pos 5242880) (e.int64_of (text "MAX_FILE_SIZE_BYTES"));
      read_timeout = or_default (pos 10000000000) (e.duration_of (text "REQUEST_TIMEOUT"));
      addr = text "SERVER_ADDRESS";
    }

-- `make_s3` is minio.New: whether it makes a client of an endpoint, two keys and the use of TLS.
module _ (drivers : Drivers) (make_s3 : String → String → String → Bool → Bool) where
  -- A pool that cannot be pinged is closed again.
  abbrev ping : String → Starting (Unit {0})
  ping url s =
      if drivers.ping_postgres url
      then (ok tt, s)
      else (err (returned database), closed (postgres_pool url) ∷ s)

  unfoldable pub init_db : String → Starting (Unit {0})
  init_db url = do
    require (drivers.parse_config url) (returned database)
    require (drivers.new_with_config url) (returned database)
    step (opened (postgres_pool url))
    ping url

  unfoldable pub new_storage : Config → Starting Storage
  new_storage c = do
    require (make_s3 c.s3_endpoint c.s3_access_key c.s3_secret_key c.s3_use_ssl) (returned storage)
    pure (storage_of c)

  unfoldable pub new_app : Environment → Starting App
  new_app e = do
    cfg ← lift (map_err (λ (x : ConfigError). returned config) (load_config e))
    init_db cfg.database_url
    object_storage ← new_storage cfg
    pure (record (app_of cfg) { storage = object_storage })

  -- The database answers at this address, and a client of S3 can be made.
  abbrev pub IsReachable : Config → Type 0
  IsReachable c =
      (drivers.parse_config c.database_url ≡ true)
      × (drivers.new_with_config c.database_url ≡ true)
      × (drivers.ping_postgres c.database_url ≡ true)
      × (make_s3 c.s3_endpoint c.s3_access_key c.s3_secret_key c.s3_use_ssl ≡ true)

  started :
      (e : Environment) (s : List Step) (c : Config)
      → load_config e ≡ ok c
      → IsReachable c
      → new_app e s ≡ (ok (app_of c), opened (postgres_pool c.database_url) ∷ s)
  unfolding new_app init_db new_storage
  started e s c loads (parses, makes, pings, s3) = rw (loads, parses, makes, pings, s3) refl

  reached :
      (e : Environment) (s : List Step) (c : Config) (app : App)
      → load_config e ≡ ok c
      → (new_app e s).0 ≡ ok app
      → IsReachable c
  unfolding new_app init_db new_storage
  reached e s c app loads h = elim (Bool-cases (drivers.parse_config c.database_url)) [
    | inr bad ↦ absurd (ground (arith, rw (loads, bad) at h))
    | inl parses ↦ elim (Bool-cases (drivers.new_with_config c.database_url)) [
      | inr bad ↦ absurd (ground (arith, rw (loads, parses, bad) at h))
      | inl makes ↦ elim (Bool-cases (drivers.ping_postgres c.database_url)) [
        | inr bad ↦ absurd (ground (arith, rw (loads, parses, makes, bad) at h))
        | inl pings ↦
            elim (Bool-cases (make_s3 c.s3_endpoint c.s3_access_key c.s3_secret_key c.s3_use_ssl)) [
              | inr bad ↦ absurd (ground (arith, rw (loads, parses, makes, pings, bad) at h))
              | inl s3 ↦ (parses, makes, pings, s3)
            ]
      ]
    ]
  ]

  loaded :
      (e : Environment) (s : List Step) (app : App)
      → (new_app e s).0 ≡ ok app
      → load_config e ≡ ok (read_config e)
  unfolding new_app
  loaded e s app h = elim (Result-cases (load_config e)) [
    | inr (x, failed) ↦ absurd (ground (arith, rw failed at h))
    | inl (c, loads) ↦ loads ∙ ap ok ((load_config-IsUsable e c).0 loads).0
  ]

  app_of-expected : (e : Environment) → app_of (read_config e) ≡ expected e
  unfolding read_config Service.new
  app_of-expected e = refl

  -- The file service starts just where its configuration is usable, the database answers, and a client
  -- of S3 can be made. Then the database, the address, the endpoint and the bucket are those that the
  -- variables of the environment name, the limits and timeouts are those of the variables or their
  -- defaults, and one pool of connections is open.
  pub new_app-App :
      (e : Environment) (s t : List Step) (app : App)
      → let c = read_config e in
        (new_app e s ≡ (ok app, t)) ↔ (
          IsUsable c
          × IsReachable c
          × (app ≡ expected e)
          × (t ≡ opened (postgres_pool c.database_url) ∷ s))
  new_app-App e s t app =
      let c = read_config e in
      (
        λ h.
            let loads = loaded e s app (ap (λ x. x.0) h) in
            let reach = reached e s c app loads (ap (λ x. x.0) h) in
            let same = sym (started e s c loads reach) ∙ h in
            (
              ((load_config-IsUsable e c).0 loads).1,
              reach,
              ground (arith, same) ∙ app_of-expected e,
              ground (arith, same),
            ),
        λ (usable, reach, same, steps).
            started e s c ((load_config-IsUsable e c).1 (refl, usable)) reach
            ∙ rw (same, steps, app_of-expected e) refl,
      )
