-- ===== src/FileService/S3/Objects.antt =====
-- The storage on S3, s3storage/storage.go, as the interface that the service uses.
use simply_chat.Base.{
  ℕ, ℤ, String, Bool, true, false, ◌≡◌, ◌≢◌, refl, sym, ◌∙◌, ap, none, some, List, ok, err,
  Result-cases, Bool-cases, ◌⊎◌, inl, inr, arith,
}
use simply_chat.FileService.Errors.{FileError, is_err, file_not_found}
use simply_chat.FileService.ObjectStorage.{ObjectStorage, PutObjectParams}
use simply_chat.FileService.S3.{
  Client, ClientError, map_error, with_retry, with_retry_no_timeout, put_object, put_attempt,
  get_object, get_attempt, delete_object, presign_get_object, mapped,
}
use simply_chat.FileService.S3.Attempts.{
  attempts-keeps, attempts-ok, attempts-not_found, mapped-ok, mapped-err,
}

-- What is documented of the client's calls: they touch no other key, and reading changes no
-- content.
pub record IsS3 (client : Client) : Type 0 where
  pub put_stores :
      (limited : Bool) (p : PutObjectParams) (s : client.Bucket)
      → (client.put limited p s).0 ≡ ok tt
      → client.holds (client.put limited p s).1 p.key ≡ some p.content
  pub put_other :
      (limited : Bool) (p : PutObjectParams) (s : client.Bucket) (k : String)
      → k ≢ p.key
      → client.holds (client.put limited p s).1 k ≡ client.holds s k
  pub remove_removes :
      (limited : Bool) (key : String) (s : client.Bucket)
      → (client.remove limited key s).0 ≡ ok tt
      → client.holds (client.remove limited key s).1 key ≡ none
  pub remove_not_found :
      (limited : Bool) (key : String) (s : client.Bucket) (e : ClientError)
      → (client.remove limited key s).0 ≡ err e
      → is_err (map_error e) file_not_found ≡ true
      → client.holds (client.remove limited key s).1 key ≡ none
  pub remove_other :
      (limited : Bool) (key : String) (s : client.Bucket) (k : String)
      → k ≢ key
      → client.holds (client.remove limited key s).1 k ≡ client.holds s k
  pub get_reads :
      (limited : Bool) (key : String) (s : client.Bucket) (content : List ℕ)
      → (client.get limited key s).0 ≡ ok content
      → client.holds s key ≡ some content
  pub get_keeps :
      (limited : Bool) (key : String) (s : client.Bucket) (k : String)
      → client.holds (client.get limited key s).1 k ≡ client.holds s k
  pub stat_keeps :
      (limited : Bool) (key : String) (s : client.Bucket) (k : String)
      → client.holds (client.stat limited key s).1 k ≡ client.holds s k

module _ (client : Client) (doc : IsS3 client) (max_retries : ℤ) where
  pub put_object-stores :
      (p : PutObjectParams) (s : client.Bucket)
      → (put_object client max_retries p s).0 ≡ ok tt
      → client.holds (put_object client max_retries p s).1 p.key ≡ some p.content
  unfolding put_object with_retry
  put_object-stores p s h =
      attempts-ok (put_attempt client max_retries p true)
        (λ _ _ u. client.holds u p.key ≡ some p.content)
        (λ t _ done. elim (Bool-cases (client.seek_fails t)) [
          | inl fails ↦ absurd (ground (arith, fails))
          | inr seeks ↦
              rw seeks (
                doc.put_stores true p t
                  (mapped-ok (client.put true p) t tt (ground (arith, seeks))))
        ])
        (λ _ _ _ _ _ q. q) _ none s tt h

  pub put_object-other :
      (p : PutObjectParams) (s : client.Bucket) (k : String)
      → k ≢ p.key
      → client.holds (put_object client max_retries p s).1 k ≡ client.holds s k
  unfolding put_object with_retry
  put_object-other p s k other =
      attempts-keeps (put_attempt client max_retries p true) _ (λ u. client.holds u k)
        (λ t. elim (Bool-cases (client.seek_fails t)) [
          | inl fails ↦ rw fails refl
          | inr seeks ↦ rw seeks (doc.put_other true p t k other)
        ])
        _ none s

  pub delete_object-removes :
      (key : String) (s : client.Bucket)
      → (delete_object client max_retries key s).0 ≡ ok tt
      → client.holds (delete_object client max_retries key s).1 key ≡ none
  unfolding delete_object with_retry
  delete_object-removes key s h =
      attempts-ok (mapped (client.remove true key)) (λ _ _ u. client.holds u key ≡ none)
        (λ t _ done. doc.remove_removes true key t (mapped-ok (client.remove true key) t tt done))
        (λ _ _ _ _ _ q. q) _ none s tt h

  pub delete_object-not_found :
      (key : String) (s : client.Bucket) (e : FileError)
      → (delete_object client max_retries key s).0 ≡ err e
      → is_err e file_not_found ≡ true
      → client.holds (delete_object client max_retries key s).1 key ≡ none
  unfolding delete_object with_retry
  delete_object-not_found key s e h q =
      attempts-not_found (mapped (client.remove true key)) (λ u. client.holds u key ≡ none)
        (λ t x failed missing.
          let (c, failed_with, is_x) = mapped-err (client.remove true key) t x failed in
          doc.remove_not_found true key t c failed_with
            (ap (λ y. is_err y file_not_found) is_x ∙ missing))
        _ none s e refl h q

  pub delete_object-other :
      (key : String) (s : client.Bucket) (k : String)
      → k ≢ key
      → client.holds (delete_object client max_retries key s).1 k ≡ client.holds s k
  unfolding delete_object with_retry
  delete_object-other key s k other =
      attempts-keeps (mapped (client.remove true key)) _ (λ u. client.holds u k)
        (λ t. doc.remove_other true key t k other) _ none s

  get_attempt-keeps :
      (key : String) (s : client.Bucket) (k : String)
      → client.holds (get_attempt client max_retries key false s).1 k ≡ client.holds s k
  get_attempt-keeps key s k = elim (Result-cases (client.get false key s).0) [
    | inr (e, d) ↦ rw d (doc.get_keeps false key s k)
    | inl (b, d) ↦ elim (Result-cases (client.stat false key (client.get false key s).1).0) [
      | inr (e, x) ↦
          rw (d, x)
            (doc.stat_keeps false key (client.get false key s).1 k ∙ doc.get_keeps false key s k)
      | inl (_, x) ↦
          rw (d, x)
            (doc.stat_keeps false key (client.get false key s).1 k ∙ doc.get_keeps false key s k)
    ]
  ]

  get_attempt-reads :
      (key : String) (s : client.Bucket) (content : List ℕ)
      → (get_attempt client max_retries key false s).0 ≡ ok content
      → client.holds s key ≡ some content
  get_attempt-reads key s content h = elim (Result-cases (client.get false key s).0) [
    | inr (e, d) ↦ absurd (ground (arith, d))
    | inl (b, d) ↦ elim (Result-cases (client.stat false key (client.get false key s).1).0) [
      | inr (e, x) ↦ absurd (ground (arith, d, x))
      | inl (_, x) ↦ doc.get_reads false key s content (d ∙ ground (arith, d, x))
    ]
  ]

  pub get_object-keeps :
      (key : String) (s : client.Bucket) (k : String)
      → client.holds (get_object client max_retries key s).1 k ≡ client.holds s k
  unfolding get_object with_retry_no_timeout
  get_object-keeps key s k =
      attempts-keeps (get_attempt client max_retries key false) _ (λ u. client.holds u k)
        (λ t. get_attempt-keeps key t k) _ none s

  pub get_object-reads :
      (key : String) (s : client.Bucket) (content : List ℕ)
      → (get_object client max_retries key s).0 ≡ ok content
      → client.holds s key ≡ some content
  unfolding get_object with_retry_no_timeout
  get_object-reads key s content h =
      attempts-ok (get_attempt client max_retries key false) (λ t c _. client.holds t key ≡ some c)
        (λ t c done. get_attempt-reads key t c done)
        (λ t u _ c e q. sym (get_attempt-keeps key t key) ∙ ap (λ v. client.holds v key) e ∙ q) _
        none s content h

  -- What is read back after a put that reports success is the content that was put, however many
  -- attempts either call took, and every other key holds what it held.
  pub get_object-put_object :
      (p : PutObjectParams) (s : client.Bucket) (content : List ℕ)
      → let t = (put_object client max_retries p s).1 in
        (put_object client max_retries p s).0 ≡ ok tt
        → (get_object client max_retries p.key t).0 ≡ ok content
        → (content ≡ p.content) × ((k : String) → k ≢ p.key → client.holds t k ≡ client.holds s k)
  get_object-put_object p s content put got =
      let held = put_object-stores p s put in
      let read = get_object-reads p.key (put_object client max_retries p s).1 content got in
      (ground (arith, held, read), put_object-other p s)

  -- After a deletion that reports success, or that the object is not found, nothing is read from
  -- the key.
  pub get_object-delete_object :
      (key : String) (s : client.Bucket) (content : List ℕ)
      → let (r, t) = delete_object client max_retries key s in
        (r ≡ ok tt) ⊎ ((e : FileError) × (r ≡ err e) × (is_err e file_not_found ≡ true))
        → (get_object client max_retries key t).0 ≢ ok content
  get_object-delete_object key s content (inl done) got =
      let held = get_object-reads key (delete_object client max_retries key s).1 content got in
      let gone = delete_object-removes key s done in ground (arith, held, gone)
  get_object-delete_object key s content (inr (e, failed, missing)) got =
      let held = get_object-reads key (delete_object client max_retries key s).1 content got in
      let gone = delete_object-not_found key s e failed missing in ground (arith, held, gone)

  -- The storage that the service is given.
  abbrev pub s3_storage : ObjectStorage
  s3_storage = record {
    Store = client.Bucket;
    holds = client.holds;
    put_object = put_object client max_retries;
    get_object = get_object client max_retries;
    delete_object = delete_object client max_retries;
    presign_get_object = presign_get_object client max_retries;
    put_stores = put_object-stores;
    put_other = put_object-other;
    delete_removes = delete_object-removes;
    delete_not_found = delete_object-not_found;
    delete_other = delete_object-other;
    get_reads = get_object-reads;
    get_keeps = get_object-keeps;
  }
