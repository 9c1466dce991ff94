-- ===== src/MessageService/FileClient.antt =====
-- messageService/internal/client/fileService/client.go and models.go beside it. The HTTP exchange
-- with the file service is a parameter.
use simply_chat.Base.{
  ℕ, ℤ, String, Bool, leb, ◌||◌, Option, none, some, List, Result, ok, err, Exec, ◌==◌, nat_eq,
  string_eq, if◌then◌else◌, trim_space,
}
use simply_chat.FileService.Names.{base}

pub data ClientError : Type 0 where
  validation unavailable not_found bad_response invalid_input : ClientError

-- The content of a file, and whether seeking to its start fails.
pub record Content : Type 0 where
  pub bytes : List ℕ
  pub seek_fails : Bool

pub record UploadRequest : Type 0 where
  pub filename : String
  pub content : Option Content
  pub uploader : String
  pub owner_service : String

pub record UploadedFile : Type 0 where
  pub id : String
  pub original_filename : String
  pub mime_type : String
  pub size : ℤ
  pub created_at : ℕ
  pub uploader : String
  pub owner_service : String

-- The answer to a request: its status, and the file that its body decodes to, none where it decodes
-- to no file.
pub record Answer : Type 0 where
  pub status_code : ℕ
  pub file : Option UploadedFile

-- `POST /files` with the form of an upload, and `DELETE /files/{id}`: no answer where the transport
-- fails. `holds` tells whether a file is served under an id.
pub record FileServer : Type 1 where
  pub Remote : Type 0
  pub holds : Remote → String → Bool
  pub post_file : String → List ℕ → String → String → Remote → Option Answer × Remote
  pub delete_file : String → Remote → Option Answer × Remote

abbrev pub is_rejection : ℕ → Bool
is_rejection status = status == 400 || status == 413 || status == 415 || status == 422

abbrev decoded : Option UploadedFile → Result ClientError UploadedFile
decoded none = err bad_response
decoded (some file) = ok file

unfoldable pub upload_result : Option Answer → Result ClientError UploadedFile
upload_result none = err unavailable
upload_result (some answer) =
    if answer.status_code == 201
    then decoded answer.file
    else if is_rejection answer.status_code
    then err validation
    else if leb 500 answer.status_code
    then err unavailable
    else err bad_response

unfoldable pub delete_result : Option Answer → Result ClientError (Unit {0})
delete_result none = err unavailable
delete_result (some answer) =
    if answer.status_code == 204
    then ok tt
    else if answer.status_code == 404
    then err not_found
    else if leb 500 answer.status_code
    then err unavailable
    else err bad_response

module _ (server : FileServer) where
  abbrev pub post_content :
      UploadRequest → Option Content → Exec server.Remote ClientError UploadedFile
  post_content req none s = (err invalid_input, s)
  post_content req (some content) s =
      let (answer, t) =
        server.post_file (base req.filename) content.bytes req.uploader req.owner_service s in
      if trim_space req.filename == "" || content.seek_fails
      then (err invalid_input, s)
      else (upload_result answer, t)

  -- The name in the form is `path.Base` of the file's.
  unfoldable pub upload : UploadRequest → Exec server.Remote ClientError UploadedFile
  upload req = post_content req req.content

  unfoldable pub delete : String → Exec server.Remote ClientError (Unit {0})
  delete file_id s =
      let (answer, t) = server.delete_file file_id s in
      if trim_space file_id == "" then (err invalid_input, s) else (delete_result answer, t)
