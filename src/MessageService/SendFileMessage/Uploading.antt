-- ===== src/MessageService/SendFileMessage/Uploading.antt =====
-- The loop of uploads in SendFileMessage, as a relation between the files and what is uploaded.
use simply_chat.Base.{
  String, ◌≡◌, refl, sym, ap, ◌∙◌, Option, none, some, List, [], ◌∷◌, ◌++◌, ok, err, Result-cases,
  inl, inr,
}
use simply_chat.Postgres.{Postgres}
use simply_chat.MessageService.FileClient
use simply_chat.MessageService.FileClient.{FileServer, UploadedFile, UploadRequest, ClientError}
use simply_chat.MessageService.Members.{Redis}
use simply_chat.MessageService.SendFileMessage.{FileUpload, upload_all, request_of}

abbrev pub request : String → FileUpload → UploadRequest
request login file = record {
  filename = file.filename;
  content = file.reader;
  uploader = login;
  owner_service = "messageService";
}

-- Uploaded one after another, from a state of the file service to another one, the files give the
-- uploaded files, each the answer to its own request, until one fails with this error.
pub data Uploading (server : FileServer) (login : String)
    : List FileUpload
      → server.Remote
      → List UploadedFile
      → Option ClientError
      → server.Remote
      → Type 0 where
  none_left : {s : server.Remote} → Uploading server login [] s [] none s
  uploads :
      {file : FileUpload} {files : List FileUpload} {s : server.Remote} {u : UploadedFile}
      {us : List UploadedFile} {failed : Option ClientError} {t : server.Remote}
      → (FileClient.upload server (request login file) s).0 ≡ ok u
      → Uploading server login files (FileClient.upload server (request login file) s).1 us failed t
      → Uploading server login (file ∷ files) s (u ∷ us) failed t
  fails :
      {file : FileUpload} {files : List FileUpload} {s : server.Remote} {e : ClientError}
      → (FileClient.upload server (request login file) s).0 ≡ err e
      → Uploading server login
          (file ∷ files)
          s
          []
          (some e)
          (FileClient.upload server (request login file) s).1

append_assoc : (a b c : List UploadedFile) → (a ++ b) ++ c ≡ a ++ (b ++ c)
append_assoc [] b c = refl
append_assoc (x ∷ a) b c = ap (λ l. x ∷ l) (append_assoc a b c)

append_none : (a : List UploadedFile) → a ++ [] ≡ a
append_none [] = refl
append_none (x ∷ a) = ap (λ l. x ∷ l) (append_none a)

module _ (pg : Postgres) (redis : Redis) (server : FileServer) (login : String) where
  pub upload_all-Uploading :
      (uploaded : List UploadedFile) (files : List FileUpload) (s : server.Remote)
      → let (run, t) = upload_all pg redis server login uploaded files s in
        (us : List UploadedFile) × (run.uploaded ≡ uploaded ++ us)
        × Uploading server login files s us run.failed t
  unfolding upload_all
  upload_all-Uploading uploaded [] s = ([], sym (append_none uploaded), none_left)
  upload_all-Uploading uploaded (file ∷ files) s =
      elim (Result-cases (FileClient.upload server (request_of pg redis server login file) s).0) [
        | inr (e, failed) ↦ rw failed ([], sym (append_none uploaded), fails failed)
        | inl (u, done) ↦
            let t = (FileClient.upload server (request_of pg redis server login file) s).1 in
            let (us, same, rest) = upload_all-Uploading (uploaded ++ u ∷ []) files t in
            rw done (u ∷ us, same ∙ append_assoc uploaded (u ∷ []) us, uploads done rest)
      ]
