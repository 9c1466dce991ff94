-- ===== src/MessageService/Http.antt =====
-- messageService/internal/transport/http/fileMessageHandler.go. A request is what mux, net/url and
-- mime/multipart make of it; strconv.Atoi is a parameter.
pub mod Access
pub mod Sender
use Prim.Native.Char.{Char, code}
use Prim.Native.String
use simply_chat.Base.{
  ℕ, zero, suc, ℤ, pos, leb_ℤ, String, Bool, true, false, not, leb, ltb, ◌&&◌, ◌||◌, Option, none,
  some, List, [], ◌∷◌, ◌++◌, length, Result, ok, err, Exec, map_err, lift, guard, ◌>>=◌, ◌>>◌, pure,
  ◌==◌, nat_eq, string_eq, if◌then◌else◌, trim_space,
}
use simply_chat.Models.{EventSendMessagePayload}
use simply_chat.Postgres.{Postgres}
use simply_chat.MessageStorage.Tables.{Sql, StorageError}
use simply_chat.MessageStorage.Messages.{user_has_access_to_file}
use simply_chat.MessageService.FileClient.{FileServer, Content}
use simply_chat.MessageService.Members.{Redis}
use simply_chat.MessageService.SendFileMessage
use simply_chat.MessageService.SendFileMessage.{
  SendError, chat_not_found, sender_not_member, file_validation, file_service_unavailable,
  save_file_message, other_error, FileUpload, SendFileMessageInput, World, on_db, closed_readers,
  send_file_message,
}

-- The errors of this package; those of the service are wrapped by `of_service`.
pub data HttpError : Type 0 where
  invalid_chat_id no_files too_many_files invalid_login bad_multipart invalid_file_id
        file_forbidden :
      HttpError
  of_service : SendError → HttpError

abbrev pub service_status : SendError → ℕ
service_status SendFileMessage.no_files = 500
service_status SendFileMessage.too_many_files = 500
service_status chat_not_found = 404
service_status sender_not_member = 403
service_status file_validation = 422
service_status file_service_unavailable = 503
service_status save_file_message = 500
service_status other_error = 500

unfoldable pub write_http_error : HttpError → ℕ
write_http_error invalid_chat_id = 400
write_http_error no_files = 400
write_http_error too_many_files = 400
write_http_error invalid_login = 400
write_http_error bad_multipart = 400
write_http_error invalid_file_id = 400
write_http_error file_forbidden = 403
write_http_error (of_service e) = service_status e

-- A form is none where it does not parse; a file of it is none where it does not open.
pub record Request : Type 0 where
  pub login : String
  pub chat_id : String
  pub file_id : String
  pub form : Option (List (Option FileUpload))

is_hex : Char → Bool
is_hex c =
    let n = code c in
    (leb b'0' n && leb n b'9') || (leb b'a' n && leb n b'f') || (leb b'A' n && leb n b'F')

-- The groups of hexadecimal digits that are left to match, with a hyphen between two.
groups_match : List ℕ → ℕ → String → Bool
groups_match [] zero String.[] = true
groups_match [] zero (String.◌∷◌ c s) = false
groups_match (n ∷ groups) zero String.[] = false
groups_match (n ∷ groups) zero (String.◌∷◌ c s) = code c == b'-' && groups_match groups n s
groups_match groups (suc n) String.[] = false
groups_match groups (suc n) (String.◌∷◌ c s) = is_hex c && groups_match groups n s

-- uuidPattern
unfoldable pub matches_uuid : String → Bool
unfolding is_hex groups_match
matches_uuid s = groups_match (4 ∷ 4 ∷ 4 ∷ 12 ∷ []) 8 s

abbrev positive : Option ℤ → Result HttpError ℤ
positive none = err invalid_chat_id
positive (some chat_id) = if leb_ℤ chat_id (pos 0) then err invalid_chat_id else ok chat_id

unfoldable pub parse_chat_id : (String → Option ℤ) → Request → Result HttpError ℤ
parse_chat_id atoi r =
    let raw_id = trim_space r.chat_id in
    if raw_id == "" then err invalid_chat_id else positive (atoi raw_id)

unfoldable pub parse_file_id : Request → Result HttpError String
parse_file_id r =
    let raw_id = trim_space r.file_id in
    if raw_id == "" || not (matches_uuid raw_id) then err invalid_file_id else ok raw_id

-- The files opened until one does not open, and whether all did.
abbrev pub opened : List (Option FileUpload) → List FileUpload × Bool
opened [] = ([], true)
opened (none ∷ files) = ([], false)
opened (some file ∷ files) = let (rest, all) = opened files in (file ∷ rest, all)

module _ (pg : Postgres) (redis : Redis) (server : FileServer) where
  abbrev pub Handled : Type 0 → Type 0
  Handled A = Exec (World pg redis server) HttpError A

  abbrev pub close_all : List FileUpload → World pg redis server → World pg redis server
  close_all files w = record w { closed = w.closed ++ closed_readers files }

  abbrev open_files : List FileUpload × Bool → Handled (List FileUpload)
  open_files (files, true) w = (ok files, w)
  open_files (files, false) w = (err bad_multipart, close_all files w)

  abbrev open_form : Option (List (Option FileUpload)) → Handled (List FileUpload)
  open_form none w = (err bad_multipart, w)
  open_form (some files) w = open_files (opened files) w

  unfoldable pub parse_uploaded_files : Request → Handled (List FileUpload)
  parse_uploaded_files r = open_form r.form

  -- `defer cleanup()`
  abbrev pub clean_up : List FileUpload → {A : Type 0} → Handled A → Handled A
  clean_up files m w = let (r, t) = m w in (r, close_all files t)

  abbrev pub of_use_case : {A : Type 0} → Exec (World pg redis server) SendError A → Handled A
  of_use_case m w = let (r, t) = m w in (map_err of_service r, t)

  abbrev pub send_parsed : ℤ → String → List FileUpload → Handled EventSendMessagePayload
  send_parsed chat_id login uploads = do
    guard (not (length uploads == 0)) no_files
    guard (not (ltb 10 (length uploads))) too_many_files
    of_use_case (
        send_file_message pg redis server
          (record { chat_id = chat_id; sender_login = login; files = uploads }))

  -- The answer of UploadFileMessage, before it is written as JSON with the status 201, or as the
  -- status of the error.
  unfoldable pub upload_file_message :
      (String → Option ℤ) → Request → Handled EventSendMessagePayload
  upload_file_message atoi r = do
    guard (not (trim_space r.login == "")) invalid_login
    chat_id ← lift (parse_chat_id atoi r)
    uploads ← parse_uploaded_files r
    clean_up uploads (send_parsed chat_id (trim_space r.login) uploads)

  unfoldable pub can_access_file : String → String → Exec (World pg redis server) SendError Bool
  can_access_file login file_id = on_db pg redis server (user_has_access_to_file pg login file_id)

  unfoldable pub check_file_access : Request → Handled (Unit {0})
  check_file_access r = do
    guard (not (trim_space r.login == "")) invalid_login
    file_id ← lift (parse_file_id r)
    allowed ← of_use_case (can_access_file (trim_space r.login) file_id)
    guard allowed file_forbidden

abbrev pub status_of : {A : Type 0} → ℕ → Result HttpError A → ℕ
status_of success (ok a) = success
status_of success (err e) = write_http_error e
