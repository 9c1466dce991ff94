-- ===== src/MessageService/Config.antt =====
-- messageService/internal/config/config.go. The environment and the parsing of durations are
-- parameters. A duration is a number of nanoseconds.
use mathlib.Core.Path.{subst}
use simply_chat.Base.{
  ℤ, pos, String, false, ◌||◌, ◌≡◌, ◌≢◌, refl, Option, none, some, Result, ok, err, Bool-cases, inl,
  inr, arith, ◌==◌, ne-of_==-false, string_eq, if◌then◌else◌, trim_space,
}

pub record Config : Type 0 where
  pub redis_addr : String
  pub service_addr : String
  pub db_url : String
  pub file_service_url : String
  pub file_service_timeout : ℤ
  pub file_service_upload_timeout : ℤ
  pub file_service_delete_timeout : ℤ

pub data ConfigError : Type 0 where
  not_enough_data : ConfigError

abbrev pub or_default : {A : Type 0} → A → Option A → A
or_default d none = d
or_default d (some a) = a

abbrev pub value_or_default : String → String → String
value_or_default value d = if trim_space value == "" then d else trim_space value

module _ (getenv : String → String) (duration_of : String → Option ℤ) where
  abbrev pub parse_duration_or_default : String → ℤ → ℤ
  parse_duration_or_default raw d = or_default d (duration_of (trim_space raw))

  unfoldable pub read_config : Config
  read_config = record {
    redis_addr = getenv "REDIS_ADDR";
    service_addr = getenv "SERVER_ADDRESS";
    db_url = getenv "DB_URL";
    file_service_url = value_or_default (getenv "FILESERVICE_URL") "http://file-service:8082";
    file_service_timeout =
        parse_duration_or_default (getenv "FILESERVICE_TIMEOUT") (pos 10000000000);
    file_service_upload_timeout =
        parse_duration_or_default (getenv "FILESERVICE_UPLOAD_TIMEOUT") (pos 120000000000);
    file_service_delete_timeout =
        parse_duration_or_default (getenv "FILESERVICE_DELETE_TIMEOUT") (pos 10000000000);
  }

  unfoldable pub load_config : Result ConfigError Config
  load_config =
      let c = read_config in
      if c.redis_addr == "" || c.service_addr == "" || c.db_url == ""
      then err not_enough_data
      else ok c

  value_or_default-full :
      (value d : String) → (d == "") ≡ false → (value_or_default value d == "") ≡ false
  value_or_default-full value d h = ground (arith, h)

  -- What LoadConfig returns has the address of Redis, its own and that of the database, and always
  -- names a file service.
  pub load_config-ok :
      (c : Config)
      → load_config ≡ ok c
      → (c.redis_addr ≢ "") × (c.service_addr ≢ "") × (c.db_url ≢ "") × (c.file_service_url ≢ "")
  unfolding load_config read_config
  load_config-ok c h =
      elim (Bool-cases
        (getenv "REDIS_ADDR" == "" || getenv "SERVER_ADDRESS" == "" || getenv "DB_URL" == "")) [
          | inl missing ↦ absurd (ground (arith, h, missing))
          | inr has ↦
              let url =
                value_or_default-full (getenv "FILESERVICE_URL") "http://file-service:8082" refl in
              let same : read_config ≡ c = ground (arith, h, has) in
              subst
                (λ c.
                  (c.redis_addr ≢ "")
                  × (c.service_addr ≢ "")
                  × (c.db_url ≢ "")
                  × (c.file_service_url ≢ ""))
                same
                (
                  ne-of_==-false _ _ (ground (arith, has)),
                  ne-of_==-false _ _ (ground (arith, has)),
                  ne-of_==-false _ _ (ground (arith, has)),
                  ne-of_==-false _ _ url,
                )
        ]
