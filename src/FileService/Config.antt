-- ===== src/FileService/Config.antt =====
-- fileService/internal/config/config.go. The environment, strconv and the parsing of durations are
-- parameters: none where they report an error. A duration is a number of nanoseconds.
pub mod Usable
use Prim.Native.Char.{code}
use Prim.Native.String
use simply_chat.Base.{
  ℕ, ℤ, pos, leb_ℤ, String, Bool, true, false, ◌||◌, Option, none, some, List, [], ◌∷◌, length,
  Result, ok, err, ◌==◌, nat_eq, string_eq, if◌then◌else◌, trim_space, to_lower,
}

pub record Config : Type 0 where
  pub service_addr : String
  pub database_url : String
  pub s3_bucket : String
  pub s3_endpoint : String
  pub s3_access_key : String
  pub s3_secret_key : String
  pub s3_use_ssl : Bool
  pub max_file_size_bytes : ℤ
  pub allowed_mime_types : List String
  pub request_timeout : ℤ
  pub s3_operation_timeout : ℤ
  pub s3_max_retries : ℤ
  pub presigned_url_ttl : ℤ

pub data ConfigError : Type 0 where
  not_enough_data max_file_size mime_types max_retries timeouts : ConfigError

-- os.Getenv, strconv.ParseBool, Atoi and ParseInt, and time.ParseDuration.
pub record Environment : Type 0 where
  pub getenv : String → String
  pub bool_of : String → Option Bool
  pub int_of : String → Option ℤ
  pub int64_of : String → Option ℤ
  pub duration_of : String → Option ℤ

-- strings.Split by a comma: the first item and the others.
unfoldable pub split_commas : String → String × List String
split_commas String.[] = ("", [])
split_commas (String.◌∷◌ c s) =
    let (item, items) = split_commas s in
    if code c == b',' then ("", item ∷ items) else (String.◌∷◌ c item, items)

unfoldable pub kept_items : List String → List String
kept_items [] = []
kept_items (item ∷ items) =
    let value = to_lower (trim_space item) in
    let rest = kept_items items in if value == "" then rest else value ∷ rest

unfoldable pub parse_csv : String → List String
parse_csv raw =
    let (item, items) = split_commas raw in
    if trim_space raw == "" then [] else kept_items (item ∷ items)

abbrev pub or_default : {A : Type 0} → A → Option A → A
or_default d none = d
or_default d (some a) = a

module _ (e : Environment) where
  abbrev pub parse_bool : String → Bool
  parse_bool raw = or_default false (e.bool_of (trim_space raw))

  abbrev pub parse_int_with_default : String → ℤ → ℤ
  parse_int_with_default key d = or_default d (e.int_of (trim_space (e.getenv key)))

  abbrev pub parse_int64_with_default : String → ℤ → ℤ
  parse_int64_with_default key d = or_default d (e.int64_of (trim_space (e.getenv key)))

  abbrev pub parse_duration_with_default : String → ℤ → ℤ
  parse_duration_with_default key d = or_default d (e.duration_of (trim_space (e.getenv key)))

  -- The configuration before it is checked.
  unfoldable pub read_config : Config
  read_config = record {
    service_addr = trim_space (e.getenv "SERVER_ADDRESS");
    database_url = trim_space (e.getenv "DB_URL");
    s3_bucket = trim_space (e.getenv "S3_BUCKET");
    s3_endpoint = trim_space (e.getenv "S3_ENDPOINT");
    s3_access_key = trim_space (e.getenv "S3_ACCESS_KEY");
    s3_secret_key = trim_space (e.getenv "S3_SECRET_KEY");
    s3_use_ssl = parse_bool (e.getenv "S3_USE_SSL");
    max_file_size_bytes = parse_int64_with_default "MAX_FILE_SIZE_BYTES" (pos 5242880);
    allowed_mime_types = parse_csv (e.getenv "ALLOWED_MIME_TYPES");
    request_timeout = parse_duration_with_default "REQUEST_TIMEOUT" (pos 10000000000);
    s3_operation_timeout = parse_duration_with_default "S3_OPERATION_TIMEOUT" (pos 10000000000);
    s3_max_retries = parse_int_with_default "S3_MAX_RETRIES" (pos 3);
    presigned_url_ttl = parse_duration_with_default "PRESIGNED_URL_TTL" (pos 900000000000);
  }

abbrev pub lacks_data : Config → Bool
lacks_data c =
    c.service_addr == ""
    || c.database_url == ""
    || c.s3_bucket == ""
    || c.s3_endpoint == ""
    || c.s3_access_key == ""
    || c.s3_secret_key == ""

abbrev pub is_not_positive : ℤ → Bool
is_not_positive n = leb_ℤ n (pos 0)

unfoldable pub check_config : Config → Result ConfigError Config
check_config c =
    if lacks_data c
    then err not_enough_data
    else if is_not_positive c.max_file_size_bytes
    then err max_file_size
    else if length c.allowed_mime_types == 0
    then err mime_types
    else if is_not_positive c.s3_max_retries
    then err max_retries
    else if is_not_positive c.request_timeout
        || is_not_positive c.s3_operation_timeout
        || is_not_positive c.presigned_url_ttl
    then err timeouts
    else ok c

unfoldable pub load_config : Environment → Result ConfigError Config
load_config e = check_config (read_config e)
