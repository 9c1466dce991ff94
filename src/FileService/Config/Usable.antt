-- ===== src/FileService/Config/Usable.antt =====
-- What a configuration that loads can be relied on for.
use simply_chat.Base.{
  pos, ◌<ℤ◌, String, Bool, false, ◌||◌, ◌≡◌, ◌≢◌, ◌↔◌, refl, sym, ap, ◌∙◌, List, [], ◌∷◌, All,
  length, ok, inl, inr, Bool-cases, arith, ◌==◌, ==_iff, ne-of_==-false, nat_eq, string_eq,
  trim_space, to_lower,
}
use simply_chat.FileService.Config.{
  Config, Environment, read_config, check_config, load_config, parse_csv, kept_items, split_commas,
  lacks_data, is_not_positive,
}

-- The addresses, the bucket and the keys are there, the limits are positive, and there is a type of file
-- that is allowed; none is blank.
pub record IsUsable (c : Config) : Type 0 where
  pub addr : c.service_addr ≢ ""
  pub database : c.database_url ≢ ""
  pub bucket : c.s3_bucket ≢ ""
  pub endpoint : c.s3_endpoint ≢ ""
  pub access_key : c.s3_access_key ≢ ""
  pub secret_key : c.s3_secret_key ≢ ""
  pub size : pos 0 <ℤ c.max_file_size_bytes
  pub types : c.allowed_mime_types ≢ []
  pub no_blank : All (λ (t : String). t ≢ "") c.allowed_mime_types
  pub retries : pos 0 <ℤ c.s3_max_retries
  pub request : pos 0 <ℤ c.request_timeout
  pub operation : pos 0 <ℤ c.s3_operation_timeout
  pub ttl : pos 0 <ℤ c.presigned_url_ttl

kept_items-All : (items : List String) → All (λ (t : String). t ≢ "") (kept_items items)
unfolding kept_items
kept_items-All [] = tt
kept_items-All (item ∷ items) = elim (Bool-cases (to_lower (trim_space item) == "")) [
  | inl blank ↦ rw blank (kept_items-All items)
  | inr full ↦ rw full (ne-of_==-false _ _ full, kept_items-All items)
]

parse_csv-All : (raw : String) → All (λ (t : String). t ≢ "") (parse_csv raw)
unfolding parse_csv
parse_csv-All raw = elim (Bool-cases (trim_space raw == "")) [
  | inl blank ↦ rw blank tt
  | inr full ↦ rw full (kept_items-All ((split_commas raw).0 ∷ (split_commas raw).1))
]

not_empty : (ts : List String) → (length ts == 0) ≡ false → ts ≢ []
not_empty ts h e = ground (arith, h, e)

empty_of : (ts : List String) → ts ≢ [] → (length ts == 0) ≡ false
empty_of [] h = absurd (h refl)
empty_of (t ∷ ts) h = ground arith

abbrev some_timeout_bad : Config → Bool
some_timeout_bad c =
    is_not_positive c.request_timeout
    || is_not_positive c.s3_operation_timeout
    || is_not_positive c.presigned_url_ttl

check_config-IsUsable :
    (d c : Config)
    → All (λ (t : String). t ≢ "") d.allowed_mime_types
    → check_config d ≡ ok c
    → (c ≡ d) × IsUsable d
unfolding check_config
check_config-IsUsable d c blanks h = elim (Bool-cases (lacks_data d)) [
  | inl lacking ↦ absurd (ground (arith, rw lacking at h))
  | inr has ↦ elim (Bool-cases (is_not_positive d.max_file_size_bytes)) [
    | inl bad ↦ absurd (ground (arith, rw (has, bad) at h))
    | inr size ↦ elim (Bool-cases (length d.allowed_mime_types == 0)) [
      | inl bad ↦ absurd (ground (arith, rw (has, size, bad) at h))
      | inr types ↦ elim (Bool-cases (is_not_positive d.s3_max_retries)) [
        | inl bad ↦ absurd (ground (arith, rw (has, size, types, bad) at h))
        | inr retries ↦ elim (Bool-cases (some_timeout_bad d)) [
          | inl bad ↦ absurd (ground (arith, rw (has, size, types, retries, bad) at h))
          | inr times ↦
              let h1 = rw (has, size, types, retries, times) at h in
              (
                ground (arith, h1),
                record {
                  addr = ne-of_==-false d.service_addr "" (ground (arith, has));
                  database = ne-of_==-false d.database_url "" (ground (arith, has));
                  bucket = ne-of_==-false d.s3_bucket "" (ground (arith, has));
                  endpoint = ne-of_==-false d.s3_endpoint "" (ground (arith, has));
                  access_key = ne-of_==-false d.s3_access_key "" (ground (arith, has));
                  secret_key = ne-of_==-false d.s3_secret_key "" (ground (arith, has));
                  size = ground (arith, size);
                  types = not_empty d.allowed_mime_types types;
                  no_blank = blanks;
                  retries = ground (arith, retries);
                  request = ground (arith, times);
                  operation = ground (arith, times);
                  ttl = ground (arith, times);
                },
              )
        ]
      ]
    ]
  ]
]

text_there : (s : String) → s ≢ "" → (s == "") ≡ false
text_there s h = elim (Bool-cases (s == "")) [
  | inl blank ↦ absurd (h ((==_iff s "").0 blank))
  | inr there ↦ there
]

IsUsable-lacks_data : (c : Config) → IsUsable c → lacks_data c ≡ false
IsUsable-lacks_data c u =
    rw
      (
        text_there c.service_addr u.addr,
        text_there c.database_url u.database,
        text_there c.s3_bucket u.bucket,
        text_there c.s3_endpoint u.endpoint,
        text_there c.s3_access_key u.access_key,
        text_there c.s3_secret_key u.secret_key,
      )
      refl

IsUsable-check_config : (c : Config) → IsUsable c → check_config c ≡ ok c
unfolding check_config
IsUsable-check_config c u =
    let size : is_not_positive c.max_file_size_bytes ≡ false = ground (arith, u.size) in
    let retries : is_not_positive c.s3_max_retries ≡ false = ground (arith, u.retries) in
    let request : is_not_positive c.request_timeout ≡ false = ground (arith, u.request) in
    let operation : is_not_positive c.s3_operation_timeout ≡ false = ground (arith, u.operation) in
    let ttl : is_not_positive c.presigned_url_ttl ≡ false = ground (arith, u.ttl) in
    rw
      (
        IsUsable-lacks_data c u,
        size,
        empty_of c.allowed_mime_types u.types,
        retries,
        request,
        operation,
        ttl,
      )
      refl

read_config-All :
    (e : Environment) → All (λ (t : String). t ≢ "") (read_config e).allowed_mime_types
unfolding read_config
read_config-All e = parse_csv-All (e.getenv "ALLOWED_MIME_TYPES")

-- LoadConfig returns what it has read just where that is usable: every limit and timeout is positive, the
-- addresses and keys are there, and some type of file is allowed, none of them blank.
pub load_config-IsUsable :
    (e : Environment) (c : Config) → (load_config e ≡ ok c) ↔ ((c ≡ read_config e) × IsUsable c)
unfolding load_config
load_config-IsUsable e c = (
  λ h.
      let (same, usable) = check_config-IsUsable (read_config e) c (read_config-All e) h in
      (same, rw same usable),
  λ (same, u). ap check_config (sym same) ∙ IsUsable-check_config c u,
)
