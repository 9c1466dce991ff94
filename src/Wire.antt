-- ===== src/Wire.antt =====
-- The file service as the message service's client reaches it: the interface of
-- MessageService/FileClient filled by the handlers of FileService/Http. The form of an upload is
-- what mime/multipart makes of it; the answer is that of
-- fileService/internal/transport/httpapi/responses.go.
pub mod Hides
pub mod Reliable
pub mod Routed
use simply_chat.Base.{
  ℕ, suc, ℤ, pos, String, Bool, true, false, Option, none, some, List, length, any, Result, ok, err,
  trim_space,
}
use simply_chat.Postgres.{Postgres}
use simply_chat.FileService.Errors.{FileError}
use simply_chat.FileService.Metadata.{File, FileRow, live_row}
use simply_chat.FileService.ObjectStorage.{ObjectStorage}
use simply_chat.FileService.Service.{Host, Config, State}
use simply_chat.FileService.Http
use simply_chat.FileService.Http.{status_of}
use simply_chat.MessageService.FileClient.{FileServer, Answer, UploadedFile}

-- toFileDTO, as the client decodes it: the key of the object stays behind.
abbrev pub to_file_dto : File → UploadedFile
to_file_dto file = record {
  id = file.id;
  original_filename = file.original_filename;
  mime_type = file.mime_type;
  size = file.size;
  created_at = file.created_at;
  uploader = file.uploader;
  owner_service = file.owner_service;
}

abbrev file_in : Result FileError File → Option UploadedFile
file_in (ok file) = some (to_file_dto file)
file_in (err e) = none

-- A part that `CreateFormFile` makes has this type.
abbrev pub form_request : String → List ℕ → String → String → Http.Request
form_request filename bytes uploader owner_service = record {
  id = "";
  form_file = ok (record {
    filename = filename;
    declared_mime = "application/octet-stream";
    size = pos (length bytes);
    content = record { bytes = bytes; fails = false };
  });
  uploader = uploader;
  uploader_header = "";
  owner_service = owner_service;
  owner_service_header = "";
}

abbrev pub id_request : String → Http.Request
id_request id = record (form_request "" List.[] "" "") { id = id }

-- `hosts` is what the host gives to each upload in turn.
module _ (pg : Postgres) (o : ObjectStorage) (parse_uuid : String → Option String)
    (hosts : ℕ → Host) (config : Config) where
  pub record Remote : Type 0 where
    pub state : State pg o
    pub uploads : ℕ

  -- A live row has the id.
  abbrev pub is_served : List FileRow → Option String → Bool
  is_served rows none = false
  is_served rows (some id) = any (live_row id) rows

  abbrev pub file_server : FileServer
  file_server = record {
    Remote = Remote;
    holds = λ s id. is_served s.state.metadata.rows (parse_uuid (trim_space id));
    post_file = λ filename bytes uploader owner_service s.
        let (r, t) =
          Http.upload pg o parse_uuid (hosts s.uploads) config
            (form_request filename bytes uploader owner_service) s.state in
        (
          some (record { status_code = status_of 201 r; file = file_in r }),
          record { state = t; uploads = suc s.uploads },
        );
    delete_file = λ id s.
        let (r, t) = Http.delete pg o parse_uuid (id_request id) s.state in
        (some (record { status_code = status_of 204 r; file = none }), record s { state = t });
  }
