-- ===== src/FileService/Service/Uploads.antt =====
-- Every way an upload can end, in the metadata and in the object store.
use simply_chat.Base.{
  ℕ, ◌≡◌, refl, ap, ◌∙◌, inl, inr, none, some, List, [], ◌∷◌, ◌++◌, Result, ok, err, Result-cases,
}
use simply_chat.Postgres.{Postgres}
use simply_chat.FileService.Errors.{FileError, metadata_unavailable}
use simply_chat.FileService.Metadata
use simply_chat.FileService.Metadata.{File, FileRow, Metadata, file_of, find_row, live_row}
use simply_chat.FileService.Metadata.Rows.{
  added, create-cases, get_by_id-cases, rows-get_by_id, find-added,
}
use simply_chat.FileService.ObjectStorage.{ObjectStorage}
use simply_chat.FileService.Service.{State, put_params, store_file}

module _ (pg : Postgres) (o : ObjectStorage) where
  -- How storing a file with this content ends: with the result `r` and the state `t`.
  pub data Outcome (file : File) (content : List ℕ) (s t : State pg o)
      : Result FileError File → Type 0 where
    -- recorded, stored, and read back
    stored_both :
        t.metadata.rows ≡ s.metadata.rows ++ added pg s.metadata file ∷ []
        → find_row (live_row file.id) t.metadata.rows ≡ some (added pg s.metadata file)
        → o.holds t.store file.object_key ≡ some content
        → Outcome file content s t (ok (file_of (added pg s.metadata file)))
    -- the put failed, and nothing is recorded
    put_failed :
        {e : FileError}
        → t.metadata.rows ≡ s.metadata.rows
        → (o.put_object (put_params pg o file content) s.store).0 ≡ err e
        → Outcome file content s t (err e)
    -- the metadata failed, and the object is gone again
    cleaned :
        t.metadata.rows ≡ s.metadata.rows
        → o.holds t.store file.object_key ≡ none
        → Outcome file content s t (err (metadata_unavailable ∷ []))
    -- the metadata failed, and so did the deletion of the object, with this error
    left_object :
        {e : FileError}
        → t.metadata.rows ≡ s.metadata.rows
        → (o.delete_object file.object_key
            (o.put_object (put_params pg o file content) s.store).1).0
          ≡ err e
        → Outcome file content s t (err (metadata_unavailable ∷ e))
    -- recorded and stored, but not read back
    unread :
        t.metadata.rows ≡ s.metadata.rows ++ added pg s.metadata file ∷ []
        → find_row (live_row file.id) t.metadata.rows ≡ some (added pg s.metadata file)
        → o.holds t.store file.object_key ≡ some content
        → Outcome file content s t (err (metadata_unavailable ∷ []))

  module _ (file : File) (content : List ℕ) (s : State pg o) where
    abbrev put : Result FileError (Unit {0}) × o.Store
    put = o.put_object (put_params pg o file content) s.store

    abbrev created : Result FileError (Unit {0}) × Metadata
    created = Metadata.create pg file s.metadata

    abbrev cleared : Result FileError (Unit {0}) × o.Store
    cleared = o.delete_object file.object_key put.1

    abbrev Ends : Type 0
    Ends = let (r, t) = store_file pg o (file, content) s in Outcome file content s t r

    not_created : put.0 ≡ ok tt → created.0 ≡ err [] → created.1.rows ≡ s.metadata.rows → Ends
    unfolding store_file
    not_created p c rows = elim (Result-cases cleared.0) [
      | inl (_, d) ↦ rw (p, c, d) (cleaned rows (o.delete_removes file.object_key put.1 d))
      | inr (e, d) ↦ rw (p, c, d) (left_object rows d)
    ]

    read_back :
        put.0 ≡ ok tt
        → created.0 ≡ ok tt
        → created.1.rows ≡ s.metadata.rows ++ added pg s.metadata file ∷ []
        → find_row (live_row file.id) created.1.rows ≡ some (added pg s.metadata file)
        → Ends
    unfolding store_file
    read_back p c rows found =
        let held = o.put_stores (put_params pg o file content) s.store p in
        let kept = rows-get_by_id pg file.id created.1 ∙ rows in
        let visible =
          ap (find_row (live_row file.id)) (rows-get_by_id pg file.id created.1) ∙ found in
        elim (get_by_id-cases pg file.id created.1) [
          | inl g ↦ rw (p, c, g) (unread kept visible held)
          | inr g ↦ rw (p, c, g, found) (stored_both kept visible held)
        ]

    -- Storing an accepted file ends in one of five ways. Success: the row and the object are there,
    -- and the answer is the row's entity. The put fails: no row is added. The row is refused: no row
    -- is added, and the object is deleted again, or its deletion failed too. The row is not read
    -- back: row and object are there although an error is answered.
    pub store_file-Outcome : Ends
    unfolding store_file
    store_file-Outcome = elim (Result-cases put.0) [
      | inr (e, p) ↦ rw p (put_failed refl p)
      | inl (_, p) ↦ elim (create-cases pg file s.metadata) [
        | inr (c, rows) ↦ not_created p c rows
        | inl (c, rows, new) ↦
            read_back p c rows
              (ap (find_row (live_row file.id)) rows ∙ find-added pg file s.metadata new)
      ]
    ]
