-- ===== src/MessageStorage/Tables.antt =====
-- The tables of messageService/docker/init.sql, and a statement sent to the database. Statements run
-- one after another; each is numbered by `calls`.
use simply_chat.Base.{
  ℕ, suc, ℤ, String, Option, none, some, List, take, ok, err, Exec, if◌then◌else◌,
}
use simply_chat.Postgres.{Postgres}

pub record ChatRow : Type 0 where
  pub id : ℤ
  pub max_members : ℤ

pub record ChatUserRow : Type 0 where
  pub chat_id : ℤ
  pub user_login : String

pub record MessageRow : Type 0 where
  pub id : ℤ
  pub chat_id : ℤ
  pub sender_login : String
  pub kind : String
  pub message_text : Option String
  pub added_at : ℕ

pub record AttachmentRow : Type 0 where
  pub id : ℤ
  pub message_id : ℤ
  pub file_id : String
  pub original_filename : String
  pub mime_type : String
  pub size : ℤ
  pub kind : String

pub record Tables : Type 0 where
  pub chat : List ChatRow
  pub chat_user : List ChatUserRow
  pub message : List MessageRow
  pub message_attachment : List AttachmentRow

-- The sequences behind `serial` are not undone by a rollback, so they stand beside the tables.
pub record Db : Type 0 where
  pub tables : Tables
  pub open tables use *
  pub chat_seq : ℕ
  pub message_seq : ℕ
  pub attachment_seq : ℕ
  pub calls : ℕ

pub data StorageError : Type 0 where
  statement_failed constraint_violated no_rows cant_add_user begin_failed commit_failed :
      StorageError

abbrev pub Sql : Type 0 → Type 0
Sql A = Exec Db StorageError A

abbrev pub counted : Db → Db
counted db = record db { calls = suc db.calls }

-- One statement: it fails for the server's own reasons, or it runs.
abbrev pub statement : Postgres → {A : Type 0} → Sql A → Sql A
statement pg run db =
    let c = counted db in if pg.fault db.calls then (err statement_failed, c) else run c

-- `for rows.Next()` ends at the first row that does not arrive, and the error is not asked for.
abbrev pub arrived : {A : Type 0} → Option ℕ → List A → List A
arrived none rows = rows
arrived (some n) rows = take n rows

-- A query read row by row: the number of the statement selects how many rows arrive.
abbrev pub query_rows : Postgres → {A : Type 0} → (Db → List A) → Sql (List A)
query_rows pg rows db = statement pg (λ c. (ok (arrived (pg.cut db.calls) (rows c)), c)) db

-- A query for one value.
abbrev pub query_value : Postgres → {A : Type 0} → (Db → A) → Sql A
query_value pg value = statement pg (λ c. (ok (value c), c))
