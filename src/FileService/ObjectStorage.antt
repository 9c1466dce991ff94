-- ===== src/FileService/ObjectStorage.antt =====
-- fileService/internal/storage/objectstorage/storage.go: the interface behind which the service keeps
-- the objects, with what the service relies on. `holds` is the content under a key.
use simply_chat.Base.{ℕ, ℤ, String, ◌≡◌, ◌≢◌, Option, none, some, true, List, ok, err, Exec}
use simply_chat.FileService.Errors.{FileError, file_not_found, is_err}

pub record PutObjectParams : Type 0 where
  pub key : String
  pub content : List ℕ
  pub size : ℤ
  pub content_type : String

pub record ObjectStorage : Type 1 where
  pub Store : Type 0
  pub holds : Store → String → Option (List ℕ)
  pub put_object : PutObjectParams → Exec Store FileError (Unit {0})
  pub get_object : String → Exec Store FileError (List ℕ)
  pub delete_object : String → Exec Store FileError (Unit {0})
  pub presign_get_object : String → ℕ → Exec Store FileError String
  -- A put that returns no error has stored the content under its key.
  pub put_stores :
      (p : PutObjectParams) (s : Store)
      → (put_object p s).0 ≡ ok tt
      → holds (put_object p s).1 p.key ≡ some p.content
  -- No call touches another key, failing or not, and reading changes nothing.
  pub put_other :
      (p : PutObjectParams) (s : Store) (k : String)
      → k ≢ p.key
      → holds (put_object p s).1 k ≡ holds s k
  pub delete_removes :
      (key : String) (s : Store)
      → (delete_object key s).0 ≡ ok tt
      → holds (delete_object key s).1 key ≡ none
  pub delete_not_found :
      (key : String) (s : Store) (e : FileError)
      → (delete_object key s).0 ≡ err e
      → is_err e file_not_found ≡ true
      → holds (delete_object key s).1 key ≡ none
  pub delete_other :
      (key : String) (s : Store) (k : String)
      → k ≢ key
      → holds (delete_object key s).1 k ≡ holds s k
  pub get_reads :
      (key : String) (s : Store) (content : List ℕ)
      → (get_object key s).0 ≡ ok content
      → holds s key ≡ some content
  pub get_keeps : (key : String) (s : Store) (k : String) → holds (get_object key s).1 k ≡ holds s k
