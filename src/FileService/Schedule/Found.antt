-- ===== src/FileService/Schedule/Found.antt =====
-- What the statements of one turn say of the rows of `file_metadata`.
use mathlib.Core.Path.{subst}
use mathlib.Core.List.{Memᴰ}
use simply_chat.Base.{
  ℕ, String, Bool, true, not, ◌≡◌, sym, ap, ◌∙◌, inl, inr, some, Option-cases, List, [], ◌∷◌, map,
  any, ok, Bool-cases, arith, ◌==◌, ==_iff, string_eq,
}
use simply_chat.Postgres.{Postgres}
use simply_chat.FileService.Metadata
use simply_chat.FileService.Metadata.{
  File, FileRow, Metadata, is_live, mark_row, live_row, find_row, one_row, counted,
}
use simply_chat.FileService.Metadata.Rows.{has_id, get_by_id-cases, get_by_id_for_deletion-cases}
use simply_chat.FileService.Schedule.Change.{
  IsLive, FromOld, same_row, marked-FromOld, selected-FromOld,
}

find_row-Mem :
    (p : FileRow → Bool) (rows : List FileRow) (row : FileRow)
    → find_row p rows ≡ some row
    → Memᴰ row rows × (p row ≡ true)
find_row-Mem p [] row h = absurd (ground arith)
find_row-Mem p (r ∷ rows) row h = elim (Bool-cases (p r)) [
  | inl chosen ↦
      let e : r ≡ row = ground (arith, rw chosen at h) in (Memᴰ.head (sym e), sym (ap p e) ∙ chosen)
  | inr skipped ↦
      let (there, holds) = find_row-Mem p rows row (rw skipped at h) in (Memᴰ.tail there, holds)
]

-- The row of a file that a query gave.
pub record IsRowOf (p : FileRow → Bool) (rows : List FileRow) (file : File) : Type 0 where
  pub row : FileRow
  pub there : Memᴰ row rows
  pub chosen : p row ≡ true
  pub key : row.object_key ≡ file.object_key

one_row-IsRowOf :
    (p : FileRow → Bool) (rows : List FileRow) (file : File)
    → one_row (find_row p rows) ≡ ok file
    → IsRowOf p rows file
one_row-IsRowOf p rows file h = elim (Option-cases (find_row p rows)) [
  | inl missing ↦ absurd (ground (arith, missing))
  | inr (row, found) ↦
      let (there, chosen) = find_row-Mem p rows row found in
      record { row = row; there = there; chosen = chosen; key = ground (arith, rw found at h) }
]

pub get_by_id-IsRowOf :
    (pg : Postgres) (id : String) (db : Metadata) (file : File)
    → (Metadata.get_by_id pg id db).0 ≡ ok file
    → IsRowOf (live_row id) db.rows file
get_by_id-IsRowOf pg id db file h = elim (get_by_id-cases pg id db) [
  | inl failed ↦ absurd (ground (arith, failed))
  | inr got ↦ one_row-IsRowOf (live_row id) db.rows file (sym got ∙ h)
]

pub get_by_id_for_deletion-IsRowOf :
    (pg : Postgres) (id : String) (db : Metadata) (file : File)
    → (Metadata.get_by_id_for_deletion pg id db).0 ≡ ok file
    → IsRowOf (has_id id) db.rows file
get_by_id_for_deletion-IsRowOf pg id db file h = elim (get_by_id_for_deletion-cases pg id db) [
  | inl failed ↦ absurd (ground (arith, failed))
  | inr got ↦ one_row-IsRowOf (has_id id) db.rows file (sym got ∙ h)
]

mark_row-IsDead :
    (now : ℕ) (id : String) (row : FileRow)
    → (mark_row now id row).id ≡ id
    → ¬ IsLive (mark_row now id row)
mark_row-IsDead now id row e live = elim (Bool-cases (live_row id row)) [
  | inl marked ↦ ground (arith, rw marked at live)
  | inr kept ↦
      let is_id : (row.id == id) ≡ true = (==_iff row.id id).1 (rw kept at e) in
      ground (arith, is_id, rw kept at live)
]

marked-IsDead :
    (now : ℕ) (id : String) (rows : List FileRow) (row : FileRow)
    → Memᴰ row (map (mark_row now id) rows)
    → row.id ≡ id
    → ¬ IsLive row
marked-IsDead now id [] row m e = elim m [ ]
marked-IsDead now id (r ∷ rows) row (Memᴰ.head here) e =
    subst (λ w. w.id ≡ id → ¬ IsLive w) (sym here) (mark_row-IsDead now id r) e
marked-IsDead now id (r ∷ rows) row (Memᴰ.tail m) e = marked-IsDead now id rows row m e

-- The rows after a mark: as before where it failed, and without a live row with the id where not.
pub mark_deleted-rows :
    (pg : Postgres) (id : String) (db : Metadata)
    → let (r, t) = Metadata.mark_deleted pg id db in
      ((row : FileRow) → Memᴰ row t.rows → FromOld db.rows row)
      × ((r ≡ ok tt) → (row : FileRow) → Memᴰ row t.rows → row.id ≡ id → ¬ IsLive row)
unfolding Metadata.mark_deleted
mark_deleted-rows pg id db = elim (Bool-cases (pg.fault db.calls)) [
  | inl fault ↦ rw fault (λ row m. same_row db.rows row m, λ done. absurd (ground (arith, done)))
  | inr run ↦
      let now = pg.now (counted db).calls in
      rw run (marked-FromOld now id db.rows, λ done. marked-IsDead now id db.rows)
]

-- The rows after a deletion were all there before.
pub delete-FromOld :
    (pg : Postgres) (id : String) (db : Metadata) (row : FileRow)
    → Memᴰ row (Metadata.delete pg id db).1.rows
    → FromOld db.rows row
unfolding Metadata.delete
delete-FromOld pg id db row m = elim (Bool-cases (pg.fault db.calls)) [
  | inl fault ↦ same_row db.rows row (rw fault at m)
  | inr run ↦ elim (Bool-cases (any (has_id id) db.rows)) [
    | inl there ↦ selected-FromOld (λ r. not (has_id id r)) db.rows row (rw (run, there) at m)
    | inr gone ↦ same_row db.rows row (rw (run, gone) at m)
  ]
]
