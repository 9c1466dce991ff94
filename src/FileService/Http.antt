-- ===== src/FileService/Http.antt =====
-- fileService/internal/transport/httpapi/handler.go. A request is what mux and net/http make of it, and
-- uuid.Parse is a parameter, none for its error.
pub mod Deleted
use simply_chat.Base.{
  ℕ, ℤ, String, Option, none, some, List, [], ◌∷◌, Result, ok, err, Exec, lift, pure, ◌>>=◌, ◌==◌,
  string_eq, if◌then◌else◌, trim_space,
}
use simply_chat.Postgres.{Postgres}
use simply_chat.FileService.Errors.{
  FileError, MultipartError, invalid_file, map_error, map_multipart_error,
}
use simply_chat.FileService.Metadata.{File}
use simply_chat.FileService.ObjectStorage.{ObjectStorage}
use simply_chat.FileService.Service
use simply_chat.FileService.Service.{Config, Host, Reader, State, UploadRequest}

pub record FormFile : Type 0 where
  pub filename : String
  pub declared_mime : String
  pub size : ℤ
  pub content : Reader

-- The values of the form, or of the query, and of the headers.
pub record Request : Type 0 where
  pub id : String
  pub form_file : Result MultipartError FormFile
  pub uploader : String
  pub uploader_header : String
  pub owner_service : String
  pub owner_service_header : String

unfoldable pub first_non_empty : List String → String
first_non_empty [] = ""
first_non_empty (value ∷ values) =
    let rest = first_non_empty values in if trim_space value == "" then rest else trim_space value

abbrev valid_id : Option String → Result FileError String
valid_id none = err (invalid_file ∷ [])
valid_id (some id) = ok id

unfoldable pub parse_file_id : (String → Option String) → Request → Result FileError String
parse_file_id parse_uuid r = valid_id (parse_uuid (trim_space r.id))

abbrev pub form_error : Result MultipartError FormFile → Result FileError FormFile
form_error (ok file) = ok file
form_error (err e) = err (map_multipart_error e)

abbrev pub upload_request : Request → FormFile → UploadRequest
upload_request r file = record {
  filename = file.filename;
  declared_mime = file.declared_mime;
  size = file.size;
  content = some file.content;
  uploader = first_non_empty (r.uploader ∷ r.uploader_header ∷ []);
  owner_service = first_non_empty (r.owner_service ∷ r.owner_service_header ∷ []);
}

-- What the response of a file says.
pub record FileResponse : Type 0 where
  pub content_type : String
  pub content_length : ℤ
  pub disposition : String
  pub filename : String
  pub body : List ℕ

abbrev pub write_file_response : String → File × List ℕ → FileResponse
write_file_response disposition (file, body) = record {
  content_type = file.mime_type;
  content_length = file.size;
  disposition = disposition;
  filename = file.original_filename;
  body = body;
}

-- A response with a body that streams whole; an error is answered by `map_error`.
module _ (pg : Postgres) (o : ObjectStorage) (parse_uuid : String → Option String) where
  abbrev pub Handled : Type 0 → Type 0
  Handled A = Exec (State pg o) FileError A

  unfoldable pub upload : Host → Config → Request → Handled File
  upload host config r = do
    file ← lift (form_error r.form_file)
    Service.upload pg o host config (upload_request r file)

  unfoldable pub get_metadata : Request → Handled File
  get_metadata r = do file_id ← lift (parse_file_id parse_uuid r); Service.get_metadata pg o file_id

  unfoldable pub get_content : Request → Handled FileResponse
  get_content r = do
    file_id ← lift (parse_file_id parse_uuid r)
    result ← Service.get_content pg o file_id
    pure (write_file_response "inline" result)

  unfoldable pub get_download_link : Request → Handled FileResponse
  get_download_link r = do
    file_id ← lift (parse_file_id parse_uuid r)
    result ← Service.get_content pg o file_id
    pure (write_file_response "attachment" result)

  unfoldable pub delete : Request → Handled (Unit {0})
  delete r = do file_id ← lift (parse_file_id parse_uuid r); Service.delete pg o file_id

-- The status of an answer.
abbrev pub status_of : {A : Type 0} → ℕ → Result FileError A → ℕ
status_of success (ok a) = success
status_of success (err e) = (map_error e).0
