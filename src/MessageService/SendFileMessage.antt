-- ===== src/MessageService/SendFileMessage.antt =====
-- messageService/internal/service/messageService/sendFileMessage.go.
pub mod Compensation
pub mod Uploading
pub mod Ending
pub mod Outcomes
pub mod Sender
use Prim.Native.Char.{code}
use Prim.Native.String
use simply_chat.Base.{
  ℕ, ℤ, String, Bool, true, false, not, leb, ◌&&◌, Option, none, some, List, [], ◌∷◌, ◌++◌, map,
  length, Result, ok, err, Exec, map_err, guard, ◌>>=◌, ◌>>◌, continue, ◌==◌, nat_eq, string_eq,
  if◌then◌else◌, trim_space, to_lower,
}
use simply_chat.Models.{EventSendMessagePayload}
use simply_chat.Postgres.{Postgres}
use simply_chat.MessageStorage.Tables.{Db, Sql, StorageError}
use simply_chat.MessageStorage.Chats.{chat_exists, is_chat_member}
use simply_chat.MessageStorage.Messages.{FileAttachmentRecord, create_file_message}
use simply_chat.MessageService.FileClient
use simply_chat.MessageService.FileClient.{
  ClientError, Content, FileServer, UploadRequest, UploadedFile, validation, unavailable, not_found,
  bad_response, invalid_input,
}
use simply_chat.MessageService.Members.{Redis}
use simply_chat.MessageService.FanOut.{Online, fan_out_message, enrich_message_payload}

abbrev pub max_files_per_message : ℕ
max_files_per_message = 10

pub data SendError : Type 0 where
  no_files too_many_files chat_not_found sender_not_member file_validation file_service_unavailable
        save_file_message other_error :
      SendError

pub record FileUpload : Type 0 where
  pub filename : String
  pub content_type : String
  pub size : ℤ
  pub reader : Option Content

pub record SendFileMessageInput : Type 0 where
  pub chat_id : ℤ
  pub sender_login : String
  pub files : List FileUpload

-- strings.HasPrefix
has_prefix : String → String → Bool
has_prefix String.[] s = true
has_prefix (String.◌∷◌ c p) String.[] = false
has_prefix (String.◌∷◌ c p) (String.◌∷◌ d s) = code c == code d && has_prefix p s

unfoldable pub detect_attachment_kind : String → String
unfolding has_prefix
detect_attachment_kind mime_type =
    if has_prefix "image/" (to_lower (trim_space mime_type)) then "image" else "file"

abbrev pub attachment_of : UploadedFile → FileAttachmentRecord
attachment_of file = record {
  file_id = file.id;
  original_filename = file.original_filename;
  mime_type = file.mime_type;
  size = file.size;
  kind = detect_attachment_kind file.mime_type;
}

-- How the loop of uploads ended: the error that stopped it, and the files uploaded before.
pub record Uploads : Type 0 where
  pub failed : Option ClientError
  pub uploaded : List UploadedFile

abbrev pub upload_error : ClientError → SendError
upload_error validation = file_validation
upload_error unavailable = file_service_unavailable
upload_error not_found = other_error
upload_error bad_response = other_error
upload_error invalid_input = other_error

-- The readers of these files are closed.
abbrev pub closed_readers : List FileUpload → List Content
closed_readers [] = []
closed_readers (file ∷ files) = elim file.reader [
  | none ↦ closed_readers files
  | some c ↦ c ∷ closed_readers files
]

module _ (pg : Postgres) (redis : Redis) (server : FileServer) where
  pub record World : Type 0 where
    pub online : Online
    pub remote : server.Remote
    pub closed : List Content

  abbrev pub request_of : String → FileUpload → UploadRequest
  request_of sender_login file = record {
    filename = file.filename;
    content = file.reader;
    uploader = sender_login;
    owner_service = "messageService";
  }

  abbrev pub after_upload :
      List UploadedFile
      → (UploadedFile → server.Remote → Uploads × server.Remote)
      → Result ClientError UploadedFile × server.Remote
      → Uploads × server.Remote
  after_upload uploaded rest (ok file, s) = rest file s
  after_upload uploaded rest (err e, s) = (record { failed = some e; uploaded = uploaded }, s)

  -- The loop, with the files uploaded so far.
  unfoldable pub upload_all :
      String → List UploadedFile → List FileUpload → server.Remote → Uploads × server.Remote
  upload_all sender_login uploaded [] s = (record { failed = none; uploaded = uploaded }, s)
  upload_all sender_login uploaded (file ∷ files) s =
      after_upload uploaded (λ u t. upload_all sender_login (uploaded ++ u ∷ []) files t)
        (FileClient.upload server (request_of sender_login file) s)

  -- Errors of the deletions are logged only.
  unfoldable pub compensate_uploaded_files : List UploadedFile → server.Remote → server.Remote
  compensate_uploaded_files [] s = s
  compensate_uploaded_files (file ∷ files) s =
      compensate_uploaded_files files (FileClient.delete server file.id s).1

  abbrev pub Action : Type 0 → Type 0
  Action A = Exec World SendError A

  abbrev pub with_db : World → Db → World
  with_db w db = record w {
    online = record w.online { sources = record w.online.sources { db = db } };
  }

  abbrev pub on_db : {A : Type 0} → Sql A → Action A
  on_db m w = let (r, db) = m w.online.sources.db in (map_err (λ _. other_error) r, with_db w db)

  abbrev pub undo : List UploadedFile → World → World
  undo uploaded w = record w { remote = compensate_uploaded_files uploaded w.remote }

  -- The errors of the fan-out are logged only.
  abbrev pub after_create :
      List UploadedFile
      → Result StorageError EventSendMessagePayload
      → Action EventSendMessagePayload
  after_create uploaded (err e) w = (err save_file_message, undo uploaded w)
  after_create uploaded (ok payload) w =
      let enriched = enrich_message_payload payload in
      (ok enriched, record w { online = (fan_out_message pg redis enriched w.online).1 })

  abbrev pub create_of : SendFileMessageInput → List UploadedFile → Sql EventSendMessagePayload
  create_of input uploaded =
      create_file_message pg input.chat_id input.sender_login (map attachment_of uploaded)

  abbrev pub after_uploads :
      SendFileMessageInput → Option ClientError → List UploadedFile → Action EventSendMessagePayload
  after_uploads input (some e) uploaded w = (err (upload_error e), undo uploaded w)
  after_uploads input none uploaded w =
      let (r, db) = create_of input uploaded w.online.sources.db in
      after_create uploaded r (with_db w db)

  abbrev pub send_files : SendFileMessageInput → Action EventSendMessagePayload
  send_files input w =
      let (run, remote) = upload_all input.sender_login [] input.files w.remote in
      after_uploads input run.failed run.uploaded (record w { remote = remote })

  -- `defer closeUploads(input.Files)`
  abbrev pub close_uploads : List FileUpload → {A : Type 0} → Action A → Action A
  close_uploads files m w =
      let (r, t) = m w in (r, record t { closed = t.closed ++ closed_readers files })

  unfoldable pub send_file_message : SendFileMessageInput → Action EventSendMessagePayload
  send_file_message input = do
    guard (not (length input.files == 0)) no_files
    guard (leb (length input.files) max_files_per_message) too_many_files
    exists ← on_db (chat_exists pg input.chat_id)
    guard exists chat_not_found
    is_member ← on_db (is_chat_member pg input.chat_id input.sender_login)
    guard is_member sender_not_member
    close_uploads input.files (send_files input)
