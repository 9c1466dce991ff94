-- ===== src/FileService/Routes.antt =====
-- fileService/internal/transport/httpapi/router.go and responses.go, over the handlers of
-- FileService/Http: which handler a request gets, and the answer that is written. The headers of the
-- middleware are left out.
use Prim.Native.String
use simply_chat.Base.{ℕ, ℤ, String, Option, List, [], ◌∷◌, Result, ok, err}
use simply_chat.Postgres.{Postgres}
use simply_chat.FileService.Errors.{FileError, map_error}
use simply_chat.FileService.Metadata.{File}
use simply_chat.FileService.ObjectStorage.{ObjectStorage}
use simply_chat.FileService.Service.{Host, Config, State}
use simply_chat.FileService.Http
use simply_chat.FileService.Http.{Request, FileResponse}
use simply_chat.Routes.{
  literal, variable, Route, route, Served, handled, method_not_allowed, not_found, redirected, Mux,
}

pub data Endpoint : Type 0 where
  upload get_metadata delete get_content get_download_link : Endpoint

abbrev pub new_router : List (Route Endpoint)
new_router =
    route ("POST" ∷ []) (literal "files" ∷ []) upload
    ∷ route ("GET" ∷ []) (literal "files" ∷ variable "id" ∷ []) get_metadata
    ∷ route ("DELETE" ∷ []) (literal "files" ∷ variable "id" ∷ []) delete
    ∷ route ("GET" ∷ []) (literal "files" ∷ variable "id" ∷ literal "content" ∷ []) get_content
    ∷ route ("GET" ∷ []) (literal "files" ∷ variable "id" ∷ literal "download" ∷ [])
        get_download_link
    ∷ []

pub record FileDto : Type 0 where
  pub id : String
  pub object_key : String
  pub original_filename : String
  pub mime_type : String
  pub size : ℤ
  pub created_at : ℕ
  pub uploader : String
  pub owner_service : String

pub record LinksDto : Type 0 where
  pub metadata : String
  pub content : String
  pub download : String

-- uploadResponse and metadataResponse
pub record FileAnswer : Type 0 where
  pub file : FileDto
  pub links : LinksDto

unfoldable pub to_file_dto : File → FileDto
to_file_dto file = record {
  id = file.id;
  object_key = file.object_key;
  original_filename = file.original_filename;
  mime_type = file.mime_type;
  size = file.size;
  created_at = file.created_at;
  uploader = file.uploader;
  owner_service = file.owner_service;
}

abbrev pub metadata_url : String → String
metadata_url file_id = String.◌++◌ "/files/" file_id

abbrev pub content_url : String → String
content_url file_id = String.◌++◌ "/files/" (String.◌++◌ file_id "/content")

abbrev pub download_url : String → String
download_url file_id = String.◌++◌ "/files/" (String.◌++◌ file_id "/download")

abbrev pub file_answer : File → FileAnswer
file_answer file = record {
  file = to_file_dto file;
  links = record {
    metadata = metadata_url file.id;
    content = content_url file.id;
    download = download_url file.id;
  };
}

-- What is written: a file as JSON with its status, its bytes, nothing, or the status of an error
-- with its code.
pub data Response : Type 0 where
  json : ℕ → FileAnswer → Response
  bytes : FileResponse → Response
  no_content : Response
  failed : ℕ → String → Response
  no_route : ℕ → Response

abbrev pub write_error : FileError → Response
write_error e = let (status, error_code) = map_error e in failed status error_code

abbrev pub write_json : ℕ → Result FileError File → Response
write_json status (ok file) = json status (file_answer file)
write_json status (err e) = write_error e

abbrev pub write_bytes : Result FileError FileResponse → Response
write_bytes (ok answer) = bytes answer
write_bytes (err e) = write_error e

abbrev pub write_no_content : Result FileError (Unit {0}) → Response
write_no_content (ok _) = no_content
write_no_content (err e) = write_error e

abbrev written : {A S : Type 0} → (A → Response) → A × S → Response × S
written write (a, s) = (write a, s)

module _ (pg : Postgres) (o : ObjectStorage) (parse_uuid : String → Option String) (host : Host)
    (config : Config) where
  -- A handler with the id of the path.
  abbrev pub handle : Endpoint → Request → State pg o → Response × State pg o
  handle upload r s = written (write_json 201) (Http.upload pg o parse_uuid host config r s)
  handle get_metadata r s = written (write_json 200) (Http.get_metadata pg o parse_uuid r s)
  handle delete r s = written write_no_content (Http.delete pg o parse_uuid r s)
  handle get_content r s = written write_bytes (Http.get_content pg o parse_uuid r s)
  handle get_download_link r s = written write_bytes (Http.get_download_link pg o parse_uuid r s)

  abbrev answer : Served Endpoint → Request → State pg o → Response × State pg o
  answer (handled endpoint path_vars) r s = handle endpoint (record r { id = path_vars "id" }) s
  answer method_not_allowed r s = (no_route 405, s)
  answer not_found r s = (no_route 404, s)
  answer redirected r s = (no_route 301, s)

  -- A request for a path, by the router.
  unfoldable pub serve_http : Mux → String → String → Request → State pg o → Response × State pg o
  serve_http mux method path r s = answer (mux.serve new_router method path) r s
