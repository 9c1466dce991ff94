-- ===== src/FileService/Service/Deletion.antt =====
-- The ways a deletion can end.
use simply_chat.Base.{
  String, false, ◌≡◌, refl, ap, ◌∙◌, inl, inr, none, some, any, Result, ok, err, Result-cases,
  Option-cases, arith,
}
use simply_chat.Postgres.{Postgres}
use simply_chat.FileService.Errors.{FileError}
use simply_chat.FileService.Metadata
use simply_chat.FileService.Metadata.{FileRow, Metadata, find_row, live_row, one_row}
use simply_chat.FileService.Metadata.Rows.{
  has_id, get_by_id_for_deletion-cases, rows-get_by_id_for_deletion, mark_deleted-cases,
  delete-cases,
}
use simply_chat.FileService.ObjectStorage.{ObjectStorage}
use simply_chat.FileService.Service.{State, delete, unless_not_found}

module _ (pg : Postgres) (o : ObjectStorage) where
  -- How the deletion of an id ends: with the result `r` and the state `t`.
  pub data DeleteOutcome (id : String) (s t : State pg o)
      : Result FileError (Unit {0}) → Type 0 where
    -- neither a row with the id nor the object of its row is left
    deleted :
        (row : FileRow)
        → find_row (has_id id) s.metadata.rows ≡ some row
        → any (has_id id) t.metadata.rows ≡ false
        → o.holds t.store row.object_key ≡ none
        → DeleteOutcome id s t (ok tt)
    -- nothing has changed in either store
    untouched :
        {e : FileError}
        → t.metadata.rows ≡ s.metadata.rows
        → t.store ≡ s.store
        → DeleteOutcome id s t (err e)
    -- the file is not served any more, and its row is still there for a repeated deletion
    hidden :
        {e : FileError}
        → find_row (live_row id) t.metadata.rows ≡ none
        → any (has_id id) t.metadata.rows ≡ any (has_id id) s.metadata.rows
        → DeleteOutcome id s t (err e)

  unless_not_found-gone :
      (key : String) (store : o.Store)
      → unless_not_found (o.delete_object key store).0 ≡ ok tt
      → o.holds (o.delete_object key store).1 key ≡ none
  unless_not_found-gone key store h = elim (Result-cases (o.delete_object key store).0) [
    | inl (_, done) ↦ o.delete_removes key store done
    | inr (e, failed) ↦ o.delete_not_found key store e failed (ground (arith, failed))
  ]

  module _ (id : String) (s : State pg o) where
    abbrev got : Result FileError Metadata.File × Metadata
    got = Metadata.get_by_id_for_deletion pg id s.metadata

    abbrev marked : Result FileError (Unit {0}) × Metadata
    marked = Metadata.mark_deleted pg id got.1

    abbrev removed : String → Result FileError (Unit {0}) × o.Store
    removed key = o.delete_object key s.store

    abbrev dropped : Result FileError (Unit {0}) × Metadata
    dropped = Metadata.delete pg id marked.1

    abbrev Ends : Type 0
    Ends = let (r, t) = delete pg o id s in DeleteOutcome id s t r

    after_mark :
        (row : FileRow)
        → find_row (has_id id) s.metadata.rows ≡ some row
        → got.0 ≡ ok (Metadata.file_of row)
        → marked.0 ≡ ok tt
        → find_row (live_row id) marked.1.rows ≡ none
        → any (has_id id) marked.1.rows ≡ any (has_id id) s.metadata.rows
        → Ends
    unfolding delete
    after_mark row found g m gone kept =
        elim (Result-cases (unless_not_found (removed row.object_key).0)) [
          | inr (e, d) ↦ rw (g, m, d) (hidden gone kept)
          | inl (_, d) ↦ elim (delete-cases pg id marked.1) [
            | inl (x, clear) ↦
                rw (g, m, d, x)
                  (deleted row found clear (unless_not_found-gone row.object_key s.store d))
            | inr (e, x, rows) ↦
                rw (g, m, d, x)
                  (hidden (ap (find_row (live_row id)) rows ∙ gone)
                    (ap (any (has_id id)) rows ∙ kept))
          ]
        ]

    -- A deletion that reports success leaves neither a row with the id nor the object of its row.
    -- One that fails has either changed nothing, or has hidden the file from every query for live
    -- rows and kept its row for another deletion.
    pub delete-DeleteOutcome : Ends
    unfolding delete
    delete-DeleteOutcome = elim (get_by_id_for_deletion-cases pg id s.metadata) [
      | inl g ↦ rw g (untouched (rows-get_by_id_for_deletion pg id s.metadata) refl)
      | inr g ↦ elim (Option-cases (find_row (has_id id) s.metadata.rows)) [
        | inl missing ↦
            rw (g, missing) (untouched (rows-get_by_id_for_deletion pg id s.metadata) refl)
        | inr (row, found) ↦ elim (mark_deleted-cases pg id got.1) [
          | inr (m, rows) ↦
              rw (g, found, m)
                (untouched (rows ∙ rows-get_by_id_for_deletion pg id s.metadata) refl)
          | inl (m, gone, kept) ↦
              after_mark row found (g ∙ ap one_row found) m gone
                (kept ∙ ap (any (has_id id)) (rows-get_by_id_for_deletion pg id s.metadata))
        ]
      ]
    ]
