-- ===== src/Tests/Config.antt =====
-- A configuration that loads.
use simply_chat.Base.{
  pos, true, ◌≡◌, ◌↔◌, refl, none, some, [], ◌∷◌, ok, ◌==◌, string_eq, if◌then◌else◌, trim_space,
  to_lower, String, Bool,
}
use simply_chat.FileService.Config.{
  Config, Environment, read_config, load_config, check_config, parse_csv, kept_items, split_commas,
}
use simply_chat.FileService.Config.Usable.{IsUsable}
use simply_chat.FileService.Start.{
  new_app, init_db, new_storage, app_of, expected, IsReachable, new_app-App,
}
use simply_chat.Start.{Drivers, opened, postgres_pool}

abbrev environment : Environment
environment = record {
  getenv = λ key. if key == "ALLOWED_MIME_TYPES" then " image/PNG, ,text/plain" else "a ";
  bool_of = λ _. some true;
  int_of = λ _. none;
  int64_of = λ _. none;
  duration_of = λ _. none;
}

abbrev loaded : Config
loaded = record {
  service_addr = "a";
  database_url = "a";
  s3_bucket = "a";
  s3_endpoint = "a";
  s3_access_key = "a";
  s3_secret_key = "a";
  s3_use_ssl = true;
  max_file_size_bytes = pos 5242880;
  allowed_mime_types = "image/png" ∷ "text/plain" ∷ [];
  request_timeout = pos 10000000000;
  s3_operation_timeout = pos 10000000000;
  s3_max_retries = pos 3;
  presigned_url_ttl = pos 900000000000;
}

loads : load_config environment ≡ ok loaded
unfolding load_config read_config check_config parse_csv kept_items split_commas trim_space to_lower
loads = refl

abbrev drivers : Drivers
drivers = record {
  parse_config = λ _. true;
  new_with_config = λ _. true;
  ping_postgres = λ _. true;
  ping_redis = λ _. true;
}

abbrev make_s3 : String → String → String → Bool → Bool
make_s3 endpoint access_key secret_key use_ssl = use_ssl

start_example :
    let c = read_config environment in
    (new_app drivers make_s3 environment [] ≡ (ok (app_of loaded), opened (postgres_pool "a") ∷ []))
    ↔ (IsUsable c
        × IsReachable drivers make_s3 c
        × (app_of loaded ≡ expected environment)
        × (opened (postgres_pool "a") ∷ [] ≡ opened (postgres_pool c.database_url) ∷ []))
start_example =
    new_app-App drivers make_s3 environment [] (opened (postgres_pool "a") ∷ []) (app_of loaded)

starts :
    new_app drivers make_s3 environment [] ≡ (ok (app_of loaded), opened (postgres_pool "a") ∷ [])
unfolding new_app init_db new_storage load_config read_config check_config parse_csv kept_items
    split_commas trim_space to_lower
starts = refl
