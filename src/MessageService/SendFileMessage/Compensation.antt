-- ===== src/MessageService/SendFileMessage/Compensation.antt =====
-- What the message service relies on in a file service, and compensateUploadedFiles of
-- sendFileMessage.go.
use simply_chat.Base.{
  String, true, false, ◌≡◌, ◌≢◌, List, [], ◌∷◌, ◌++◌, All, ok, Result-cases, Bool-cases, inl, inr,
  trim_space, nat_eq, string_eq,
}
use simply_chat.Postgres.{Postgres}
use simply_chat.MessageService.FileClient
use simply_chat.MessageService.FileClient.{
  FileServer, UploadedFile, UploadRequest, ClientError, Content,
}
use simply_chat.MessageService.Members.{Redis}
use simply_chat.MessageService.SendFileMessage.{
  FileUpload, upload_all, compensate_uploaded_files, request_of,
}

-- A file service that can be relied on to delete: a deletion it acknowledges leaves nothing to be
-- served under the id, no deletion brings a file back, an id that it gives is not blank, and
-- it acknowledges the deletion of a file that it serves.
pub record Deletes (server : FileServer) : Type 0 where
  pub acknowledges :
      (id : String) (s : server.Remote)
      → trim_space id ≢ ""
      → server.holds s id ≡ true
      → (FileClient.delete server id s).0 ≡ ok tt
  pub removes :
      (id : String) (s : server.Remote)
      → (FileClient.delete server id s).0 ≡ ok tt
      → server.holds (FileClient.delete server id s).1 id ≡ false
  pub brings_none_back :
      (id other : String) (s : server.Remote)
      → server.holds s other ≡ false
      → server.holds (FileClient.delete server id s).1 other ≡ false
  pub names :
      (request : UploadRequest) (s : server.Remote) (file : UploadedFile)
      → (FileClient.upload server request s).0 ≡ ok file
      → trim_space file.id ≢ ""

abbrev pub IsNamed : UploadedFile → Type 0
IsNamed file = trim_space file.id ≢ ""

module _ (pg : Postgres) (redis : Redis) (server : FileServer) (d : Deletes server) where
  compensate-keeps :
      (files : List UploadedFile) (id : String) (s : server.Remote)
      → server.holds s id ≡ false
      → server.holds (compensate_uploaded_files pg redis server files s) id ≡ false
  unfolding compensate_uploaded_files
  compensate-keeps [] id s h = h
  compensate-keeps (file ∷ files) id s h =
      compensate-keeps files id (FileClient.delete server file.id s).1
        (d.brings_none_back file.id id s h)

  deleted :
      (id : String) (s : server.Remote)
      → trim_space id ≢ ""
      → server.holds (FileClient.delete server id s).1 id ≡ false
  deleted id s named = elim (Bool-cases (server.holds s id)) [
    | inl held ↦ d.removes id s (d.acknowledges id s named held)
    | inr gone ↦ d.brings_none_back id id s gone
  ]

  -- None of the files is served after the compensation.
  pub compensate-gone :
      (files : List UploadedFile) (s : server.Remote)
      → All IsNamed files
      → All
          (λ (f : UploadedFile).
            server.holds (compensate_uploaded_files pg redis server files s) f.id ≡ false)
          files
  unfolding compensate_uploaded_files
  compensate-gone [] s h = tt
  compensate-gone (file ∷ files) s (named, h) =
      let t = (FileClient.delete server file.id s).1 in
      (compensate-keeps files file.id t (deleted file.id s named), compensate-gone files t h)

  All-snoc :
      (files : List UploadedFile) (file : UploadedFile)
      → All IsNamed files
      → IsNamed file
      → All IsNamed (files ++ file ∷ [])
  All-snoc [] file h n = (n, tt)
  All-snoc (f ∷ files) file h n = (h.0, All-snoc files file h.1 n)

  pub upload_all-IsNamed :
      (login : String) (uploaded : List UploadedFile) (files : List FileUpload) (s : server.Remote)
      → All IsNamed uploaded
      → All IsNamed (upload_all pg redis server login uploaded files s).0.uploaded
  unfolding upload_all
  upload_all-IsNamed login uploaded [] s h = h
  upload_all-IsNamed login uploaded (file ∷ files) s h =
      elim (Result-cases (FileClient.upload server (request_of pg redis server login file) s).0) [
        | inr (e, failed) ↦ rw failed h
        | inl (u, done) ↦ rw done (
            upload_all-IsNamed login (uploaded ++ u ∷ []) files
              (FileClient.upload server (request_of pg redis server login file) s).1
              (All-snoc uploaded u h (d.names (request_of pg redis server login file) s u done)))
      ]
