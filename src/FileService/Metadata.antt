-- ===== src/FileService/Metadata.antt =====
-- fileService/internal/repository/postgres/filemetadata/repository.go over the table of
-- fileService/docker/init.sql, and the entity of internal/domain/fileentity/file.go.
pub mod Rows
use simply_chat.Base.{
  ℕ, suc, ℤ, pos, leb_ℤ, String, Bool, true, false, not, ◌&&◌, ◌||◌, Option, none, some, List, [],
  ◌∷◌, ◌++◌, map, any, select, Result, ok, err, Exec, ◌==◌, int_eq, string_eq, if◌then◌else◌,
}
use simply_chat.Postgres.{Postgres}
use simply_chat.FileService.Errors.{FileError, file_not_found}

pub record File : Type 0 where
  pub id : String
  pub object_key : String
  pub original_filename : String
  pub mime_type : String
  pub size : ℤ
  pub created_at : ℕ
  pub deleted_at : Option ℕ
  pub uploader : String
  pub owner_service : String

-- A row of `file_metadata`.
pub record FileRow : Type 0 where
  pub id : String
  pub object_key : String
  pub original_filename : String
  pub mime_type : String
  pub size : ℤ
  pub uploader : Option String
  pub owner_service : Option String
  pub created_at : ℕ
  pub deleted_at : Option ℕ

pub record Metadata : Type 0 where
  pub rows : List FileRow
  pub calls : ℕ

abbrev pub counted : Metadata → Metadata
counted db = record db { calls = suc db.calls }

-- One statement: it fails for the server's own reasons, or it runs.
abbrev pub statement :
    Postgres → {A : Type 0} → Exec Metadata FileError A → Exec Metadata FileError A
statement pg run db = let c = counted db in if pg.fault db.calls then (err [], c) else run c

abbrev pub nullable_string : String → Option String
nullable_string value = if value == "" then none else some value

-- `coalesce(…, '')`
abbrev pub coalesce : Option String → String
coalesce none = ""
coalesce (some value) = value

abbrev pub row_of : ℕ → File → FileRow
row_of now file = record {
  id = file.id;
  object_key = file.object_key;
  original_filename = file.original_filename;
  mime_type = file.mime_type;
  size = file.size;
  uploader = nullable_string file.uploader;
  owner_service = nullable_string file.owner_service;
  created_at = now;
  deleted_at = none;
}

abbrev pub file_of : FileRow → File
file_of row = record {
  id = row.id;
  object_key = row.object_key;
  original_filename = row.original_filename;
  mime_type = row.mime_type;
  size = row.size;
  created_at = row.created_at;
  deleted_at = row.deleted_at;
  uploader = coalesce row.uploader;
  owner_service = coalesce row.owner_service;
}

-- The primary key and the unique key of the table.
abbrev pub clashes : File → FileRow → Bool
clashes file row = row.id == file.id || row.object_key == file.object_key

abbrev pub insert_row : (ℕ → ℕ) → File → Exec Metadata FileError (Unit {0})
insert_row now file db =
    if any (clashes file) db.rows || not (leb_ℤ (pos 0) file.size)
    then (err [], db)
    else (ok tt, record db { rows = db.rows ++ row_of (now db.calls) file ∷ [] })

unfoldable pub create : Postgres → File → Exec Metadata FileError (Unit {0})
create pg file = statement pg (insert_row pg.now file)

abbrev pub is_live : Option ℕ → Bool
is_live none = true
is_live (some at) = false

abbrev pub find_row : (FileRow → Bool) → List FileRow → Option FileRow
find_row p [] = none
find_row p (row ∷ rows) = if p row then some row else find_row p rows

abbrev pub one_row : Option FileRow → Result FileError File
one_row none = err (file_not_found ∷ [])
one_row (some row) = ok (file_of row)

-- `where id = $1 and deleted_at is null`
abbrev pub live_row : String → FileRow → Bool
live_row id row = row.id == id && is_live row.deleted_at

unfoldable pub get_by_id : Postgres → String → Exec Metadata FileError File
get_by_id pg id = statement pg λ db. (one_row (find_row (live_row id) db.rows), db)

unfoldable pub get_by_id_for_deletion : Postgres → String → Exec Metadata FileError File
get_by_id_for_deletion pg id =
    statement pg λ db. (one_row (find_row (λ row. row.id == id) db.rows), db)

abbrev pub mark_row : ℕ → String → FileRow → FileRow
mark_row now id row = if live_row id row then record row { deleted_at = some now } else row

-- No row affected is no error.
unfoldable pub mark_deleted : Postgres → String → Exec Metadata FileError (Unit {0})
mark_deleted pg id =
    statement pg λ db. (ok tt, record db { rows = map (mark_row (pg.now db.calls) id) db.rows })

unfoldable pub delete : Postgres → String → Exec Metadata FileError (Unit {0})
delete pg id = statement pg λ db.
    if any (λ row. row.id == id) db.rows
    then (ok tt, record db { rows = select (λ row. not (row.id == id)) db.rows })
    else (err (file_not_found ∷ []), db)
