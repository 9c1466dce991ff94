-- ===== src/FileService/Schedule/Rows.antt =====
-- Where the rows after a turn come from.
use mathlib.Core.List.{Memᴰ}
use simply_chat.Base.{
  String, ◌≡◌, refl, sym, ap, ◌⊎◌, inl, inr, Option, none, some, List, Result-cases, arith, nat_eq,
  string_eq,
}
use simply_chat.Postgres.{Postgres}
use simply_chat.FileService.Metadata
use simply_chat.FileService.Metadata.{File, FileRow, live_row}
use simply_chat.FileService.Metadata.Rows.{
  added, create-cases, rows-get_by_id, rows-get_by_id_for_deletion,
}
use simply_chat.FileService.ObjectStorage.{ObjectStorage}
use simply_chat.FileService.Service.{State, put_params, unless_not_found}
use simply_chat.FileService.Schedule.{
  Task, putting, creating, cleaning, reading_back, uploaded, asking, getting, downloaded, finding,
  marking, removing, dropping, deleted, advance,
}
use simply_chat.FileService.Schedule.Change.{FromOld, same_row, appended}
use simply_chat.FileService.Schedule.Found.{mark_deleted-rows, delete-FromOld}

-- The id of an upload that has no row yet.
abbrev pub upload_id : Task → Option String
upload_id (putting file content) = some file.id
upload_id (creating file) = some file.id
upload_id _ = none

module _ (pg : Postgres) (o : ObjectStorage) where
  -- The rows that the call of a turn leaves.
  abbrev pub rows_after : Task → State pg o → List FileRow
  rows_after (creating file) s = (Metadata.create pg file s.metadata).1.rows
  rows_after (reading_back id) s = (Metadata.get_by_id pg id s.metadata).1.rows
  rows_after (asking id) s = (Metadata.get_by_id pg id s.metadata).1.rows
  rows_after (finding id) s = (Metadata.get_by_id_for_deletion pg id s.metadata).1.rows
  rows_after (marking id file) s = (Metadata.mark_deleted pg id s.metadata).1.rows
  rows_after (dropping id) s = (Metadata.delete pg id s.metadata).1.rows
  rows_after _ s = s.metadata.rows

  -- A turn leaves these rows, and begins no upload.
  pub advance-rows_after :
      (u : Task) (s : State pg o)
      → let (t, after) = advance pg o u s in
        (after.metadata.rows ≡ rows_after u s)
        × ((k : String) → upload_id t ≡ some k → upload_id u ≡ some k)
  unfolding advance
  advance-rows_after (putting file content) s =
      elim (Result-cases (o.put_object (put_params pg o file content) s.store).0) [
        | inr (e, failed) ↦ rw failed (refl, λ k its. absurd (ground (arith, its)))
        | inl (_, done) ↦ rw done (refl, λ k its. its)
      ]
  advance-rows_after (creating file) s =
      elim (Result-cases (Metadata.create pg file s.metadata).0) [
        | inr (e, failed) ↦ rw failed (refl, λ k its. absurd (ground (arith, its)))
        | inl (_, done) ↦ rw done (refl, λ k its. absurd (ground (arith, its)))
      ]
  advance-rows_after (cleaning file) s = (refl, λ k its. absurd (ground (arith, its)))
  advance-rows_after (reading_back id) s = (refl, λ k its. absurd (ground (arith, its)))
  advance-rows_after (uploaded r) s = (refl, λ k its. absurd (ground (arith, its)))
  advance-rows_after (asking id) s = elim (Result-cases (Metadata.get_by_id pg id s.metadata).0) [
    | inr (e, failed) ↦ rw failed (refl, λ k its. absurd (ground (arith, its)))
    | inl (_, done) ↦ rw done (refl, λ k its. absurd (ground (arith, its)))
  ]
  advance-rows_after (getting file) s =
      elim (Result-cases (o.get_object file.object_key s.store).0) [
        | inr (e, failed) ↦ rw failed (refl, λ k its. absurd (ground (arith, its)))
        | inl (_, done) ↦ rw done (refl, λ k its. absurd (ground (arith, its)))
      ]
  advance-rows_after (downloaded r) s = (refl, λ k its. absurd (ground (arith, its)))
  advance-rows_after (finding id) s =
      elim (Result-cases (Metadata.get_by_id_for_deletion pg id s.metadata).0) [
        | inr (e, failed) ↦ rw failed (refl, λ k its. absurd (ground (arith, its)))
        | inl (_, done) ↦ rw done (refl, λ k its. absurd (ground (arith, its)))
      ]
  advance-rows_after (marking id file) s =
      elim (Result-cases (Metadata.mark_deleted pg id s.metadata).0) [
        | inr (e, failed) ↦ rw failed (refl, λ k its. absurd (ground (arith, its)))
        | inl (_, done) ↦ rw done (refl, λ k its. absurd (ground (arith, its)))
      ]
  advance-rows_after (removing id file) s =
      elim (Result-cases (unless_not_found (o.delete_object file.object_key s.store).0)) [
        | inr (e, failed) ↦ rw failed (refl, λ k its. absurd (ground (arith, its)))
        | inl (_, done) ↦ rw done (refl, λ k its. absurd (ground (arith, its)))
      ]
  advance-rows_after (dropping id) s = (refl, λ k its. absurd (ground (arith, its)))
  advance-rows_after (deleted r) s = (refl, λ k its. absurd (ground (arith, its)))

  -- A row after a turn was there before, or is that of the upload whose turn it is.
  abbrev pub Whence : Task → State pg o → FileRow → Type 0
  Whence u s r = FromOld s.metadata.rows r ⊎ (upload_id u ≡ some r.id)

  created :
      (file : File) (s : State pg o) (r : FileRow)
      → Memᴰ r (Metadata.create pg file s.metadata).1.rows
      → Whence (creating file) s r
  created file s r m = elim (create-cases pg file s.metadata) [
    | inr (failed, rows) ↦ inl (same_row s.metadata.rows r (rw rows at m))
    | inl (done, rows, apart) ↦
        elim (appended r (added pg s.metadata file) s.metadata.rows (rw rows at m)) [
          | inl before ↦ inl (same_row s.metadata.rows r before)
          | inr is_new ↦ inr (ap (λ w. some w.id) (sym is_new))
        ]
  ]

  pub rows_after-Whence :
      (u : Task) (s : State pg o) (r : FileRow) → Memᴰ r (rows_after u s) → Whence u s r
  rows_after-Whence (creating file) s r m = created file s r m
  rows_after-Whence (reading_back id) s r m =
      inl (same_row s.metadata.rows r (rw (rows-get_by_id pg id s.metadata) at m))
  rows_after-Whence (asking id) s r m =
      inl (same_row s.metadata.rows r (rw (rows-get_by_id pg id s.metadata) at m))
  rows_after-Whence (finding id) s r m =
      inl (same_row s.metadata.rows r (rw (rows-get_by_id_for_deletion pg id s.metadata) at m))
  rows_after-Whence (marking id file) s r m = inl ((mark_deleted-rows pg id s.metadata).0 r m)
  rows_after-Whence (dropping id) s r m = inl (delete-FromOld pg id s.metadata r m)
  rows_after-Whence (putting file content) s r m = inl (same_row s.metadata.rows r m)
  rows_after-Whence (cleaning file) s r m = inl (same_row s.metadata.rows r m)
  rows_after-Whence (uploaded x) s r m = inl (same_row s.metadata.rows r m)
  rows_after-Whence (getting file) s r m = inl (same_row s.metadata.rows r m)
  rows_after-Whence (downloaded x) s r m = inl (same_row s.metadata.rows r m)
  rows_after-Whence (removing id file) s r m = inl (same_row s.metadata.rows r m)
  rows_after-Whence (deleted x) s r m = inl (same_row s.metadata.rows r m)
