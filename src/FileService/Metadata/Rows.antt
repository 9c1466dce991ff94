-- ===== src/FileService/Metadata/Rows.antt =====
-- What each statement on `file_metadata` does to the rows, and what it finds.
use simply_chat.Base.{
  ℕ, String, Bool, true, false, not, ◌≡◌, refl, ◌⊎◌, inl, inr, none, some, List, [], ◌∷◌, ◌++◌, map,
  any, select, ok, err, ◌==◌, ==_refl, string_eq, int_eq, arith, Bool-cases,
}
use simply_chat.Postgres.{Postgres}
use simply_chat.FileService.Errors.{FileError, file_not_found}
use simply_chat.FileService.Metadata.{
  File, FileRow, Metadata, create, get_by_id, get_by_id_for_deletion, mark_deleted, delete, row_of,
  clashes, find_row, live_row, mark_row, one_row, counted,
}

find_row-append :
    (p : FileRow → Bool) (rows : List FileRow) (row : FileRow)
    → any p rows ≡ false
    → p row ≡ true
    → find_row p (rows ++ row ∷ []) ≡ some row
find_row-append p [] row h q = rw q
find_row-append p (r ∷ rows) row h q = ground (arith, find_row-append p rows row)

-- A row that does not clash has another id.
not_clashing :
    (file : File) (rows : List FileRow)
    → any (clashes file) rows ≡ false
    → any (live_row file.id) rows ≡ false
not_clashing file [] h = refl
not_clashing file (r ∷ rows) h = ground (arith, not_clashing file rows)

abbrev pub added : Postgres → Metadata → File → FileRow
added pg db file = row_of (pg.now (counted db).calls) file

pub create-cases :
    (pg : Postgres) (file : File) (db : Metadata)
    → ((create pg file db).0 ≡ ok tt)
        × ((create pg file db).1.rows ≡ db.rows ++ added pg db file ∷ [])
        × (any (clashes file) db.rows ≡ false)
      ⊎ ((create pg file db).0 ≡ err []) × ((create pg file db).1.rows ≡ db.rows)
unfolding create
create-cases pg file db = ground arith

pub get_by_id-cases :
    (pg : Postgres) (id : String) (db : Metadata)
    → ((get_by_id pg id db).0 ≡ err [])
      ⊎ ((get_by_id pg id db).0 ≡ one_row (find_row (live_row id) db.rows))
unfolding get_by_id
get_by_id-cases pg id db = ground arith

pub rows-get_by_id :
    (pg : Postgres) (id : String) (db : Metadata) → (get_by_id pg id db).1.rows ≡ db.rows
unfolding get_by_id
rows-get_by_id pg id db = ground arith

-- The row that was just added is the one found by its id.
pub find-added :
    (pg : Postgres) (file : File) (db : Metadata)
    → any (clashes file) db.rows ≡ false
    → find_row (live_row file.id) (db.rows ++ added pg db file ∷ []) ≡ some (added pg db file)
find-added pg file db h =
    find_row-append (live_row file.id) db.rows (added pg db file) (not_clashing file db.rows h)
      (rw (==_refl file.id))

abbrev pub has_id : String → FileRow → Bool
has_id id row = row.id == id

pub get_by_id_for_deletion-cases :
    (pg : Postgres) (id : String) (db : Metadata)
    → ((get_by_id_for_deletion pg id db).0 ≡ err [])
      ⊎ ((get_by_id_for_deletion pg id db).0 ≡ one_row (find_row (has_id id) db.rows))
unfolding get_by_id_for_deletion
get_by_id_for_deletion-cases pg id db = ground arith

pub rows-get_by_id_for_deletion :
    (pg : Postgres) (id : String) (db : Metadata)
    → (get_by_id_for_deletion pg id db).1.rows ≡ db.rows
unfolding get_by_id_for_deletion
rows-get_by_id_for_deletion pg id db = ground arith

-- A marked row is found no more by the queries for live rows.
find_row-mark :
    (now : ℕ) (id : String) (rows : List FileRow)
    → find_row (live_row id) (map (mark_row now id) rows) ≡ none
find_row-mark now id [] = refl
find_row-mark now id (row ∷ rows) = ground (arith, find_row-mark now id rows)

pub any-mark :
    (now : ℕ) (id k : String) (rows : List FileRow)
    → any (has_id k) (map (mark_row now id) rows) ≡ any (has_id k) rows
any-mark now id k [] = refl
any-mark now id k (row ∷ rows) = ground (arith, any-mark now id k rows)

any-has_id_of_find :
    (id : String) (rows : List FileRow) (row : FileRow)
    → find_row (has_id id) rows ≡ some row
    → any (has_id id) rows ≡ true
any-has_id_of_find id [] row h = ground arith
any-has_id_of_find id (r ∷ rows) row h = ground (arith, any-has_id_of_find id rows row)

any-without :
    (id : String) (rows : List FileRow)
    → any (has_id id) (select (λ row. not (row.id == id)) rows) ≡ false
any-without id [] = refl
any-without id (row ∷ rows) = ground (arith, any-without id rows)

pub mark_deleted-cases :
    (pg : Postgres) (id : String) (db : Metadata)
    → ((mark_deleted pg id db).0 ≡ ok tt)
        × (find_row (live_row id) (mark_deleted pg id db).1.rows ≡ none)
        × (any (has_id id) (mark_deleted pg id db).1.rows ≡ any (has_id id) db.rows)
      ⊎ ((mark_deleted pg id db).0 ≡ err []) × ((mark_deleted pg id db).1.rows ≡ db.rows)
unfolding mark_deleted
mark_deleted-cases pg id db = ground (
  arith,
  find_row-mark (pg.now (counted db).calls) id db.rows,
  any-mark (pg.now (counted db).calls) id id db.rows,
)

pub delete-cases :
    (pg : Postgres) (id : String) (db : Metadata)
    → ((delete pg id db).0 ≡ ok tt) × (any (has_id id) (delete pg id db).1.rows ≡ false)
      ⊎ ((e : FileError) × ((delete pg id db).0 ≡ err e) × ((delete pg id db).1.rows ≡ db.rows))
unfolding delete
delete-cases pg id db = elim (Bool-cases (pg.fault db.calls)) [
  | inl fault ↦ inr ([], ground arith, ground arith)
  | inr run ↦ elim (Bool-cases (any (has_id id) db.rows)) [
    | inl there ↦ inl (ground arith, ground (arith, any-without id db.rows))
    | inr gone ↦ inr (file_not_found ∷ [], ground arith, ground arith)
  ]
]
