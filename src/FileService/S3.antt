-- ===== src/FileService/S3.antt =====
-- fileService/internal/storage/s3storage/storage.go. The client of minio-go is a parameter with what
-- is documented of it.
pub mod Retry
pub mod Attempts
pub mod Objects
use simply_chat.Base.{
  ℕ, zero, suc, ℤ, pos, pos_part, String, Bool, true, false, ◌||◌, ◌≡◌, ◌≢◌, not, Option, none,
  some, List, [], ◌∷◌, Result, ok, err, Exec, map_err, pure, guard, ◌>>=◌, ◌>>◌, ◌==◌, nat_eq,
  string_eq, if◌then◌else◌,
}
use simply_chat.FileService.Errors.{
  FileError, is_err, file_not_found, storage_unavailable, invalid_file,
}
use simply_chat.FileService.ObjectStorage.{PutObjectParams}

-- An error of the client: the answer's code (empty where the error is not an answer) and status, and
-- whether the error is io.EOF.
pub record ClientError : Type 0 where
  pub code : String
  pub status_code : ℕ
  pub is_eof : Bool

-- The client on one bucket. Every call is told whether it runs under the operation timeout, and
-- one that is cut off fails. `seek_fails` is of the content to be put.
pub record Client : Type 1 where
  pub Bucket : Type 0
  pub holds : Bucket → String → Option (List ℕ)
  pub seek_fails : Bucket → Bool
  pub put : Bool → PutObjectParams → Exec Bucket ClientError (Unit {0})
  pub get : Bool → String → Exec Bucket ClientError (List ℕ)
  pub stat : Bool → String → Exec Bucket ClientError (Unit {0})
  pub remove : Bool → String → Exec Bucket ClientError (Unit {0})
  pub presign : Bool → String → ℕ → Exec Bucket ClientError String

unfoldable pub map_error : ClientError → FileError
map_error e =
    if e.code == "NoSuchKey" || e.status_code == 404
    then file_not_found ∷ []
    else if not (e.code == "")
    then storage_unavailable ∷ []
    else if e.is_eof
    then invalid_file ∷ []
    else storage_unavailable ∷ []

abbrev pub last_error : Option FileError → FileError
last_error none = storage_unavailable ∷ []
last_error (some e) = e

module _ {S A : Type 0} where
  -- After one attempt: it is returned, or `rest` goes on from its state with its error.
  abbrev pub after_attempt :
      (FileError → S → Result FileError A × S) → Result FileError A × S → Result FileError A × S
  after_attempt rest (ok a, s) = (ok a, s)
  after_attempt rest (err e, s) = if is_err e file_not_found then (err e, s) else rest e s

  -- The loop: attempts left, and the last error.
  unfoldable pub attempts : Exec S FileError A → ℕ → Option FileError → Exec S FileError A
  attempts operation zero last s = (err (last_error last), s)
  attempts operation (suc left) last s =
      after_attempt (λ e t. attempts operation left (some e) t) (operation s)

  unfoldable pub with_retry : ℤ → (Bool → Exec S FileError A) → Exec S FileError A
  with_retry max_retries operation = attempts (operation true) (pos_part max_retries) none

  unfoldable pub with_retry_no_timeout : ℤ → (Bool → Exec S FileError A) → Exec S FileError A
  with_retry_no_timeout max_retries operation =
      attempts (operation false) (pos_part max_retries) none

-- An error of the client, as the service's.
abbrev pub mapped : {S A : Type 0} → Exec S ClientError A → Exec S FileError A
mapped m s = let (r, t) = m s in (map_err map_error r, t)

module _ (client : Client) (max_retries : ℤ) where
  abbrev pub put_attempt : PutObjectParams → Bool → Exec client.Bucket FileError (Unit {0})
  put_attempt params limited s =
      if client.seek_fails s
      then (err (invalid_file ∷ []), s)
      else mapped (client.put limited params) s

  unfoldable pub put_object : PutObjectParams → Exec client.Bucket FileError (Unit {0})
  put_object params = with_retry max_retries (put_attempt params)

  -- The object is opened, and asked for its state.
  abbrev pub get_attempt : String → Bool → Exec client.Bucket FileError (List ℕ)
  get_attempt key limited = do
    object ← mapped (client.get limited key)
    mapped (client.stat limited key)
    pure object

  unfoldable pub get_object : String → Exec client.Bucket FileError (List ℕ)
  get_object key = with_retry_no_timeout max_retries (get_attempt key)

  unfoldable pub delete_object : String → Exec client.Bucket FileError (Unit {0})
  delete_object key = with_retry max_retries (λ limited. mapped (client.remove limited key))

  unfoldable pub presign_get_object : String → ℕ → Exec client.Bucket FileError String
  presign_get_object key expires =
      with_retry max_retries (λ limited. mapped (client.presign limited key expires))
