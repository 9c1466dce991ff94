-- ===== src/FileService/Service/Accepted.antt =====
-- What a successful upload has checked, and what it leaves behind.
use mathlib.Core.Path.{subst}
use simply_chat.Base.{
  ℕ, ℤ, pos, ◌<ℤ◌, ◌≤ℤ◌, length, contains, String, true, ◌≡◌, ◌≢◌, refl, sym, ap, ◌∙◌, inl, inr,
  some, List, Result, ok, Result-cases, Option-cases, arith, ==_iff, int_eq, string_eq,
}
use simply_chat.Postgres.{Postgres}
use simply_chat.FileService.Errors.{FileError}
use simply_chat.FileService.Metadata.{File, FileRow, Metadata, file_of, find_row, live_row}
use simply_chat.FileService.Metadata.Rows.{added, get_by_id-cases}
use simply_chat.FileService.ObjectStorage.{ObjectStorage}
use simply_chat.FileService.Names.{sanitize_filename}
use simply_chat.FileService.Service.{
  Host, Config, UploadRequest, Reader, State, store_file, upload, get_content, prepare,
  prepare_from, check_type, spool_to_temp_file,
}
use simply_chat.FileService.Service.Uploads.{
  Outcome, stored_both, put_failed, cleaned, left_object, unread, store_file-Outcome,
}

-- A file that passed the checks, with the content to store.
pub record IsAccepted (config : Config) (request : UploadRequest) (file : File) (content : List ℕ)
    : Type 0 where
  pub source : Reader
  pub from_source : request.content ≡ some source
  pub all_bytes : source.bytes ≡ content
  pub exact_size : pos (length content) ≡ file.size
  pub positive : pos 0 <ℤ file.size
  pub within_limit : file.size ≤ℤ config.max_file_size
  pub allowed : contains file.mime_type config.allowed_mime_type ≡ true
  pub named : file.original_filename ≢ ""

spool_ok :
    (host : Host) (source : Reader) (size : ℤ) (content head : List ℕ)
    → spool_to_temp_file host source size ≡ ok (content, head)
    → (source.bytes ≡ content) × (pos (length content) ≡ size)
unfolding spool_to_temp_file
spool_ok host source size content head h = ground (arith, ==_iff (pos (length source.bytes)) size)

module _ (host : Host) (config : Config) (request : UploadRequest) (file : File)
    (content : List ℕ) where
  check_type_ok :
      (spool : List ℕ × List ℕ)
      → check_type host config request spool ≡ ok (file, content)
      → (spool.0 ≡ content)
        × (file.size ≡ request.size)
        × (contains file.mime_type config.allowed_mime_type ≡ true)
        × (file.original_filename ≡ sanitize_filename request.filename)
  check_type_ok spool h = ground arith

  prepare_from_ok :
      (source : Reader)
      → request.content ≡ some source
      → prepare_from host config request (some source) ≡ ok (file, content)
      → IsAccepted config request file content
  prepare_from_ok source from h =
      elim (Result-cases (spool_to_temp_file host source request.size)) [
        | inr (e, failed) ↦ absurd (ground (arith, failed))
        | inl (spool, done) ↦
            let (bytes, size) = spool_ok host source request.size spool.0 spool.1 done in
            let (content_eq, size_eq, mime, name) = check_type_ok spool (ground (arith, done)) in
            record {
              source = source;
              from_source = from;
              all_bytes = bytes ∙ content_eq;
              exact_size = ap (λ c. pos (length c)) (sym content_eq) ∙ size ∙ sym size_eq;
              positive = rw size_eq (ground (arith, done));
              within_limit = rw size_eq (ground (arith, done));
              allowed = mime;
              named =
                  rw name (ground (arith, done, ==_iff (sanitize_filename request.filename) ""));
            }
      ]

  pub prepare_ok :
      prepare host config request ≡ ok (file, content) → IsAccepted config request file content
  unfolding prepare
  prepare_ok h = elim (Option-cases request.content) [
    | inl missing ↦ absurd (ground (arith, missing))
    | inr (source, from) ↦ prepare_from_ok source from (ground (arith, from))
  ]

module _ (pg : Postgres) (o : ObjectStorage) where
  -- A stored file: accepted, its content held under its key, its row found by its id.
  pub record IsUploaded (config : Config) (request : UploadRequest) (stored : File) (t : State pg o)
      : Type 0 where
    pub content : List ℕ
    pub accepted : IsAccepted config request stored content
    pub held : o.holds t.store stored.object_key ≡ some content
    pub row : FileRow
    pub found : find_row (live_row stored.id) t.metadata.rows ≡ some row
    pub read : file_of row ≡ stored

  Outcome-ok :
      {file : File} {content : List ℕ} {s t : State pg o} {r : Result FileError File}
      (stored : File)
      → Outcome pg o file content s t r
      → r ≡ ok stored
      → (find_row (live_row file.id) t.metadata.rows ≡ some (added pg s.metadata file))
        × (o.holds t.store file.object_key ≡ some content)
        × (file_of (added pg s.metadata file) ≡ stored)
  Outcome-ok stored (stored_both rows found held) e = (found, held, ground arith)
  Outcome-ok stored (put_failed _ _) e = cc
  Outcome-ok stored (cleaned _ _) e = cc
  Outcome-ok stored (left_object _ _) e = cc
  Outcome-ok stored (unread _ _ _) e = cc

  -- What is accepted of a file is accepted of its row.
  recorded-IsAccepted :
      {config : Config} {request : UploadRequest} {content : List ℕ} (file : File) (db : Metadata)
      → IsAccepted config request file content
      → IsAccepted config request (file_of (added pg db file)) content
  recorded-IsAccepted file db a = record {
    source = a.source;
    from_source = a.from_source;
    all_bytes = a.all_bytes;
    exact_size = a.exact_size;
    positive = a.positive;
    within_limit = a.within_limit;
    allowed = a.allowed;
    named = a.named;
  }

  -- A successful upload has a positive size within the limit, an allowed type, a name, and as many
  -- bytes as declared; exactly these bytes are held under the file's key, and its row is found by
  -- its id.
  pub upload-IsUploaded :
      (host : Host) (config : Config) (request : UploadRequest) (s : State pg o) (stored : File)
      → (upload pg o host config request s).0 ≡ ok stored
      → IsUploaded config request stored (upload pg o host config request s).1
  unfolding upload
  upload-IsUploaded host config request s stored h =
      elim (Result-cases (prepare host config request)) [
        | inr (e, failed) ↦ absurd (ground (arith, failed))
        | inl ((file, content), prepared) ↦
            let (found, held, same) =
              Outcome-ok stored (store_file-Outcome pg o file content s)
                (rw (prepared, upload) at h) in
            rw prepared (
              subst (λ f. IsUploaded config request f (store_file pg o (file, content) s).1) same
                (record {
                  content = content;
                  accepted =
                      recorded-IsAccepted file s.metadata
                        (prepare_ok host config request file content prepared);
                  held = held;
                  row = added pg s.metadata file;
                  found = found;
                  read = refl;
                }))
      ]

  -- A download of a row that is found: the row's entity, with what is held under its key.
  get_content_found :
      (id : String) (t : State pg o) (row : FileRow) (file : File) (body : List ℕ)
      → find_row (live_row id) t.metadata.rows ≡ some row
      → (get_content pg o id t).0 ≡ ok (file, body)
      → (file ≡ file_of row) × (o.holds t.store row.object_key ≡ some body)
  unfolding get_content
  get_content_found id t row file body found down = elim (get_by_id-cases pg id t.metadata) [
    | inl failed ↦ absurd (ground (arith, failed))
    | inr got ↦ elim (Result-cases (o.get_object row.object_key t.store).0) [
      | inr (e, failed) ↦ absurd (cc (rw (got, found, failed, get_content) at down))
      | inl (b, read) ↦
          let e : ◌≡◌ {A = Result FileError (File × List ℕ)} (ok (file_of row, b))
              (ok (file, body)) =
            rw (got, found, read, get_content) at down in
          (ground arith, o.get_reads row.object_key t.store b read ∙ ground arith)
    ]
  ]

  -- What is downloaded by the id of an uploaded file, from the state that the upload left, is the
  -- file's entity with exactly the bytes that were uploaded.
  pub get_content-upload :
      (host : Host) (config : Config) (request : UploadRequest) (s : State pg o)
      (stored file : File) (source : Reader) (body : List ℕ)
      → request.content ≡ some source
      → (upload pg o host config request s).0 ≡ ok stored
      → (get_content pg o stored.id (upload pg o host config request s).1).0 ≡ ok (file, body)
      → (file ≡ stored) × (body ≡ source.bytes)
  get_content-upload host config request s stored file source body from up down =
      let u = upload-IsUploaded host config request s stored up in
      let (same, held) = get_content_found stored.id _ u.row file body u.found down in
      let key : u.row.object_key ≡ stored.object_key = ap (λ f. f.object_key) u.read in
      let held_key : o.holds (upload pg o host config request s).1.store stored.object_key
          ≡ some body =
        rw (← key) held in
      let content : u.content ≡ body = ground (arith, u.held, held_key) in
      (same ∙ u.read, ground (arith, u.accepted.from_source, u.accepted.all_bytes, content))

prepared-id :
    (host : Host) (config : Config) (request : UploadRequest) (file : File) (content : List ℕ)
    → prepare host config request ≡ ok (file, content)
    → file.id ≡ host.fresh_id
unfolding prepare
prepared-id host config request file content h = elim (Option-cases request.content) [
  | inl missing ↦ absurd (ground (arith, missing))
  | inr (source, from) ↦ elim (Result-cases (spool_to_temp_file host source request.size)) [
    | inr (e, failed) ↦ absurd (ground (arith, from, failed, h))
    | inl (spool, done) ↦ ground (arith, from, done, h)
  ]
]

-- A file that is uploaded has the identifier that the host gave.
pub upload-fresh_id :
    (pg : Postgres) (o : ObjectStorage) (host : Host) (config : Config) (request : UploadRequest)
    (s : State pg o) (stored : File)
    → (upload pg o host config request s).0 ≡ ok stored
    → stored.id ≡ host.fresh_id
unfolding upload
upload-fresh_id pg o host config request s stored h =
    elim (Result-cases (prepare host config request)) [
      | inr (e, failed) ↦ absurd (ground (arith, failed))
      | inl ((file, content), prepared) ↦
          let (found, held, same) =
            Outcome-ok pg o stored (store_file-Outcome pg o file content s)
              (rw (prepared, upload) at h) in
          ap (λ f. f.id) (sym same) ∙ prepared-id host config request file content prepared
    ]
