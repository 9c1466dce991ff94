-- ===== src/FileService/Service.antt =====
-- fileService/internal/service/fileservice/service.go. The object storage is a parameter, behind its
-- interface; so are the host's parts of an upload: the temporary file, the clock, the uuid drawn,
-- and the tables of net/http and mime.
pub mod Uploads
pub mod Accepted
pub mod Deletion
use Prim.Native.Char.{Char, code}
use Prim.Native.String.{len}
use Prim.Native.String
use simply_chat.Base.{
  ℕ, suc, ◌+◌, ℤ, pos, leb_ℤ, ltb_ℤ, ltb, String, Bool, true, false, not, ◌&&◌, ◌||◌, Option, none,
  some, List, [], ◌∷◌, ◌++◌, map, length, take, contains, map_err, Result, ok, err, Exec, pure,
  raise, lift, guard, or_raise, ◌>>=◌, ◌>>◌, continue, ◌==◌, nat_eq, int_eq, string_eq,
  if◌then◌else◌, trim_space, to_lower,
}
use simply_chat.Postgres.{Postgres}
use simply_chat.FileService.Errors.{
  FileError, Sentinel, is_err, invalid_file, file_too_large, mime_type_not_allowed, file_not_found,
  metadata_unavailable,
}
use simply_chat.FileService.Metadata
use simply_chat.FileService.Metadata.{File, Metadata}
use simply_chat.FileService.ObjectStorage.{ObjectStorage, PutObjectParams}
use simply_chat.FileService.Names.{sanitize_filename, build_object_key}

-- The bytes that a reader gives before its end, or before it fails.
pub record Reader : Type 0 where
  pub bytes : List ℕ
  pub fails : Bool

pub record UploadRequest : Type 0 where
  pub filename : String
  pub declared_mime : String
  pub size : ℤ
  pub content : Option Reader
  pub uploader : String
  pub owner_service : String

-- `sniff` is http.DetectContentType, `media_type` mime.ParseMediaType (none for its error),
-- `fresh_id` the uuid drawn, `date_path` the date as year/month/day.
pub record Host : Type 0 where
  pub temp_fails : Bool
  pub write_fails : Bool
  pub seek_fails : Bool
  pub sniff : List ℕ → String
  pub media_type : String → Option String
  pub fresh_id : String
  pub date_path : String

pub record Config : Type 0 where
  pub max_file_size : ℤ
  pub allowed_mime_type : List String
  pub presign_ttl_seconds : ℕ

-- The set of allowed types is built from the configured list.
unfoldable pub new : ℤ → List String → ℕ → Config
new max_file_size allowed_mime_types presign_ttl_seconds = record {
  max_file_size = max_file_size;
  allowed_mime_type = map (λ mime_type. to_lower (trim_space mime_type)) allowed_mime_types;
  presign_ttl_seconds = presign_ttl_seconds;
}

abbrev pub sniff_buffer_size : ℕ
sniff_buffer_size = 512

unfoldable pub normalize_mime_type : Host → String → String
normalize_mime_type host value =
    let lowered = to_lower (trim_space value) in
    elim (host.media_type lowered) [ none ↦ lowered | some media_type ↦ media_type ]

unfoldable pub detect_mime_type : Host → List ℕ → String → String
unfolding normalize_mime_type
detect_mime_type host head declared =
    let detected = to_lower (host.sniff head) in
    if not (detected == "") && not (detected == "application/octet-stream")
    then normalize_mime_type host detected
    else normalize_mime_type host declared

-- The temporary file's content and its first bytes; every error of the source is one for the caller.
unfoldable pub spool_to_temp_file : Host → Reader → ℤ → Result FileError (List ℕ × List ℕ)
spool_to_temp_file host source expected_size =
    let head = take sniff_buffer_size source.bytes in
    if host.temp_fails
    then err []
    else if source.fails && ltb (length source.bytes) sniff_buffer_size
    then err []
    else if length head == 0
    then err (invalid_file ∷ [])
    else if host.write_fails
    then err []
    else if source.fails
    then err []
    else if not (pos (length source.bytes) == expected_size)
    then err (invalid_file ∷ [])
    else ok (source.bytes, head)

-- The file to store: its type is checked, and it gets an id and a key.
abbrev pub check_type :
    Host → Config → UploadRequest → List ℕ × List ℕ → Result FileError (File × List ℕ)
check_type host config request (content, head) =
    let mime_type = detect_mime_type host head request.declared_mime in
    let filename = sanitize_filename request.filename in
    if host.seek_fails
    then err (invalid_file ∷ [])
    else if not (contains mime_type config.allowed_mime_type)
    then err (mime_type_not_allowed ∷ [])
    else ok (
      record {
        id = host.fresh_id;
        object_key = build_object_key host.date_path host.fresh_id filename;
        original_filename = filename;
        mime_type = mime_type;
        size = request.size;
        created_at = 0;
        deleted_at = none;
        uploader = trim_space request.uploader;
        owner_service = trim_space request.owner_service;
      },
      content,
    )

-- Any error of the spooling is reported as an invalid file.
abbrev pub checked :
    Host
    → Config
    → UploadRequest
    → Result FileError (List ℕ × List ℕ)
    → Result FileError (File × List ℕ)
checked host config request (ok spool) = check_type host config request spool
checked host config request (err e) = err (invalid_file ∷ [])

abbrev pub prepare_from :
    Host → Config → UploadRequest → Option Reader → Result FileError (File × List ℕ)
prepare_from host config request none = err (invalid_file ∷ [])
prepare_from host config request (some source) =
    if leb_ℤ request.size (pos 0)
    then err (invalid_file ∷ [])
    else if ltb_ℤ config.max_file_size request.size
    then err (file_too_large ∷ [])
    else if sanitize_filename request.filename == ""
    then err (invalid_file ∷ [])
    else checked host config request (spool_to_temp_file host source request.size)

-- The part of Upload before the stores are called: the file to store, and its content.
unfoldable pub prepare : Host → Config → UploadRequest → Result FileError (File × List ℕ)
prepare host config request = prepare_from host config request request.content

pub record DownloadLink : Type 0 where
  pub url : String
  pub expires_in_seconds : ℕ

abbrev pub errors_of : Result FileError (Unit {0}) → FileError
errors_of (ok _) = []
errors_of (err e) = e

abbrev pub unless_not_found : Result FileError (Unit {0}) → Result FileError (Unit {0})
unless_not_found (ok _) = ok tt
unless_not_found (err e) = if is_err e file_not_found then ok tt else err e

module _ (pg : Postgres) (o : ObjectStorage) where
  -- The two stores of the service.
  pub record State : Type 0 where
    pub metadata : Metadata
    pub store : o.Store

  abbrev pub Action : Type 0 → Type 0
  Action A = Exec State FileError A

  abbrev pub on_metadata : {A : Type 0} → Exec Metadata FileError A → Action A
  on_metadata m s = let (r, metadata) = m s.metadata in (r, record s { metadata = metadata })

  abbrev pub on_store : {A : Type 0} → Exec o.Store FileError A → Action A
  on_store m s = let (r, store) = m s.store in (r, record s { store = store })

  -- An error of any kind is reported as this one.
  abbrev pub as_metadata_unavailable : {A : Type 0} → Action A → Action A
  as_metadata_unavailable m s = let (r, t) = m s in (map_err (λ _. metadata_unavailable ∷ []) r, t)

  -- Without metadata the object is deleted again; the error of that is joined.
  abbrev pub clean_up : String → Result FileError (Unit {0}) → Action (Unit {0})
  clean_up key (ok _) s = (ok tt, s)
  clean_up key (err _) s =
      let (r, store) = o.delete_object key s.store in
      (err (metadata_unavailable ∷ errors_of r), record s { store = store })

  abbrev pub create_or_clean_up : File → Action (Unit {0})
  create_or_clean_up file s =
      let (r, t) = on_metadata (Metadata.create pg file) s in clean_up file.object_key r t

  abbrev pub put_params : File → List ℕ → PutObjectParams
  put_params file content = record {
    key = file.object_key;
    content = content;
    size = file.size;
    content_type = file.mime_type;
  }

  -- The part of Upload that calls the stores.
  unfoldable pub store_file : File × List ℕ → Action File
  store_file (file, content) = do
    on_store (o.put_object (put_params file content))
    create_or_clean_up file
    as_metadata_unavailable (on_metadata (Metadata.get_by_id pg file.id))

  unfoldable pub upload : Host → Config → UploadRequest → Action File
  upload host config request = do prepared ← lift (prepare host config request); store_file prepared

  unfoldable pub get_metadata : String → Action File
  get_metadata file_id = on_metadata (Metadata.get_by_id pg file_id)

  unfoldable pub get_content : String → Action (File × List ℕ)
  get_content file_id = do
    file ← on_metadata (Metadata.get_by_id pg file_id)
    body ← on_store (o.get_object file.object_key)
    pure (file, body)

  unfoldable pub get_download_link : Config → String → Action DownloadLink
  get_download_link config file_id = do
    file ← on_metadata (Metadata.get_by_id pg file_id)
    url ← on_store (o.presign_get_object file.object_key config.presign_ttl_seconds)
    pure (record { url = url; expires_in_seconds = config.presign_ttl_seconds })

  abbrev pub delete_stored : String → Action (Unit {0})
  delete_stored key s = let (r, t) = on_store (o.delete_object key) s in (unless_not_found r, t)

  unfoldable pub delete : String → Action (Unit {0})
  delete file_id = do
    file ← on_metadata (Metadata.get_by_id_for_deletion pg file_id)
    as_metadata_unavailable (on_metadata (Metadata.mark_deleted pg file_id))
    delete_stored file.object_key
    as_metadata_unavailable (on_metadata (Metadata.delete pg file_id))
