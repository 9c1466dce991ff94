-- ===== src/Tests/Files.antt =====
-- The file service, on a bucket in memory.
use simply_chat.Base.{
  Option, ℕ, zero, suc, pos, String, Bool, true, false, ◌≡◌, ◌≢◌, refl, none, some, [], ◌∷◌, ok,
  err, trim_space, to_lower, Exec, string_eq,
}
use simply_chat.FileService.Errors.{FileError, storage_unavailable}
use simply_chat.FileService.Metadata
use simply_chat.FileService.Metadata.{File, Metadata, FileRow}
use simply_chat.FileService.ObjectStorage.{ObjectStorage}
use simply_chat.FileService.Service
use simply_chat.FileService.Names.{sanitize_filename, build_object_key, base}
use simply_chat.FileService.Service.{
  Host, Config, Reader, UploadRequest, State, store_file, upload, get_content, prepare, new,
  spool_to_temp_file, detect_mime_type, normalize_mime_type,
}
use simply_chat.FileService.Service.Uploads.{Outcome, store_file-Outcome}
use simply_chat.FileService.Service.Accepted.{IsUploaded, upload-IsUploaded, get_content-upload}
use simply_chat.FileService.Service.Deletion.{DeleteOutcome, delete-DeleteOutcome}
use simply_chat.FileService.S3.{
  put_object, get_object, delete_object, with_retry, with_retry_no_timeout, attempts,
}
use simply_chat.FileService.S3.Objects.{s3_storage}
use simply_chat.FileService.S3.Retry.{first_final, calls_in_a_row, with_retry-first_final}
use simply_chat.FileService.Http
use simply_chat.FileService.Http.Deleted.{state_after, get_content-delete}
use simply_chat.FileService.Errors.{missing_file}
use simply_chat.Tests.Fixtures.{healthy, client, client-IsS3}

abbrev pub storage : ObjectStorage
storage = s3_storage client client-IsS3 (pos 2)

abbrev pub host : Host
host = record {
  temp_fails = false;
  write_fails = false;
  seek_fails = false;
  sniff = λ _. "text/plain";
  media_type = λ s. some s;
  fresh_id = "f1";
  date_path = "2026/01/02";
}

abbrev pub config : Config
config = record {
  max_file_size = pos 10;
  allowed_mime_type = "text/plain" ∷ [];
  presign_ttl_seconds = 60;
}

abbrev source : Reader
source = record { bytes = 104 ∷ 105 ∷ []; fails = false }

abbrev request : UploadRequest
request = record {
  filename = "dir/hi.TXT";
  declared_mime = "";
  size = pos 2;
  content = some source;
  uploader = "ann";
  owner_service = "";
}

abbrev start : State healthy storage
start = record { metadata = record { rows = []; calls = 0 }; store = λ k. none }

abbrev stored : File
stored = record {
  id = "f1";
  object_key = "files/2026/01/02/f1.txt";
  original_filename = "hi.TXT";
  mime_type = "text/plain";
  size = pos 2;
  created_at = 1;
  deleted_at = none;
  uploader = "ann";
  owner_service = "";
}

uploaded : (upload healthy storage host config request start).0 ≡ ok stored
unfolding upload prepare store_file spool_to_temp_file detect_mime_type normalize_mime_type
    sanitize_filename build_object_key base trim_space to_lower put_object with_retry attempts
    Metadata.create Metadata.get_by_id
uploaded = refl

upload_example :
    IsUploaded healthy storage config request stored
      (upload healthy storage host config request start).1
upload_example = upload-IsUploaded healthy storage host config request start stored uploaded

downloaded :
    (get_content healthy storage "f1" (upload healthy storage host config request start).1).0
    ≡ ok (stored, source.bytes)
unfolding upload prepare store_file spool_to_temp_file detect_mime_type normalize_mime_type
    sanitize_filename build_object_key base trim_space to_lower put_object with_retry attempts
    Metadata.create Metadata.get_by_id get_content get_object with_retry_no_timeout
downloaded = refl

download_example : (stored ≡ stored) × (source.bytes ≡ source.bytes)
download_example =
    get_content-upload healthy storage host config request start stored stored source source.bytes
      refl uploaded downloaded

store_file_example :
    Outcome healthy storage stored source.bytes start
      (store_file healthy storage (stored, source.bytes) start).1
      (store_file healthy storage (stored, source.bytes) start).0
store_file_example = store_file-Outcome healthy storage stored source.bytes start

delete_example :
    DeleteOutcome healthy storage "f1" start
      (Service.delete healthy storage "f1" start).1
      (Service.delete healthy storage "f1" start).0
delete_example = delete-DeleteOutcome healthy storage "f1" start

abbrev pub with_row : State healthy storage
with_row = record {
  metadata = record {
    rows =
        record {
          id = "f1";
          object_key = "k";
          original_filename = "hi.TXT";
          mime_type = "text/plain";
          size = pos 1;
          uploader = none;
          owner_service = none;
          created_at = 0;
          deleted_at = none;
        }
        ∷ [];
    calls = 0;
  };
  store = λ k. some (1 ∷ []);
}

abbrev pub asked : Http.Request
asked = record {
  id = "f1";
  form_file = err missing_file;
  uploader = "";
  uploader_header = "";
  owner_service = "";
  owner_service_header = "";
}

abbrev pub as_uuid : String → Option String
as_uuid s = some s

deleted_by_request : (Http.delete healthy storage as_uuid asked with_row).0 ≡ ok tt
unfolding Http.delete Http.parse_file_id Service.delete Metadata.get_by_id_for_deletion
    Metadata.mark_deleted Metadata.delete delete_object with_retry attempts trim_space
deleted_by_request = refl

unserved_example :
    let t = state_after healthy storage as_uuid asked with_row in
    ((file : File) → (Http.get_metadata healthy storage as_uuid asked t).0 ≢ ok file)
    × ((answer : Http.FileResponse)
        → (Http.get_content healthy storage as_uuid asked t).0 ≢ ok answer)
    × ((answer : Http.FileResponse)
        → (Http.get_download_link healthy storage as_uuid asked t).0 ≢ ok answer)
unserved_example =
    get_content-delete healthy storage as_uuid asked with_row asked refl deleted_by_request

-- Fails twice, then succeeds.
abbrev flaky : Bool → Exec ℕ FileError ℕ
flaky limited zero = (err (storage_unavailable ∷ []), 1)
flaky limited (suc zero) = (err (storage_unavailable ∷ []), 2)
flaky limited (suc (suc n)) = (ok n, n)

retry_example :
    with_retry (pos 5) flaky 0
    ≡ first_final (err (storage_unavailable ∷ []), 0) (calls_in_a_row (flaky true) 5 0)
retry_example = with_retry-first_final (pos 5) flaky 0
