-- ===== src/MessageStorage/Messages.antt =====
-- Messages and attachments: withTx, createMessageTx, createAttachmentsTx of
-- messageService/internal/storage/postgres/messageStorage/tx.go, and SaveMessage,
-- CreateFileMessage, UserHasAccessToFile of messageStorage.go beside it.
use simply_chat.Base.{
  ℕ, suc, ℤ, pos, leb_ℤ, String, Bool, ◌&&◌, ◌||◌, Option, none, some, List, [], ◌∷◌, ◌++◌, map,
  any, select, Result, ok, err, pure, ◌>>=◌, ◌>>◌, ◌==◌, int_eq, string_eq, to_lower, trim_space,
  if◌then◌else◌,
}
use simply_chat.Models.{AttachmentPayload, EventSendMessagePayload}
use simply_chat.Postgres.{Postgres}
use simply_chat.MessageStorage.Tables.{
  MessageRow, AttachmentRow, Tables, Db, StorageError, Sql, statement_failed, counted,
  constraint_violated, begin_failed, commit_failed, statement,
}
use simply_chat.MessageStorage.Chats.{chat_in, member}

pub record FileAttachmentRecord : Type 0 where
  pub file_id : String
  pub original_filename : String
  pub mime_type : String
  pub size : ℤ
  pub kind : String

abbrev pub message_kind_text : String
message_kind_text = "text"

abbrev pub message_kind_file : String
message_kind_file = "file"

-- `check (kind in ('text', 'file', 'system'))` of `message`
abbrev pub message_kind_ok : String → Bool
message_kind_ok kind = kind == "text" || kind == "file" || kind == "system"

-- `check (kind in ('file', 'image'))` of `message_attachment`
abbrev pub attachment_kind_ok : String → Bool
attachment_kind_ok kind = kind == "file" || kind == "image"

abbrev pub nullable_string : String → Option String
nullable_string value = if value == "" then none else some value

-- `insert into message ... returning id, added_at`, under the foreign key and the check of `kind`.
-- The sequence moves on also where a constraint refuses the row.
abbrev pub insert_message_row : (ℕ → ℕ) → ℤ → String → String → Option String → Sql (ℤ × ℕ)
insert_message_row now chat_id sender_login kind message_text db =
    let id = pos (suc db.message_seq) in
    let added_at : ℕ = now db.calls in
    let moved : Db = record db { message_seq = suc db.message_seq } in
    let row : MessageRow = record {
      id = id;
      chat_id = chat_id;
      sender_login = sender_login;
      kind = kind;
      message_text = message_text;
      added_at = added_at;
    } in
    if chat_in chat_id db.chat && message_kind_ok kind
    then (
      ok (id, added_at),
      record moved { tables = record moved.tables { message = db.message ++ row ∷ [] } },
    )
    else (err constraint_violated, moved)

unfoldable pub insert_message : Postgres → ℤ → String → String → Option String → Sql (ℤ × ℕ)
insert_message pg chat_id sender_login kind message_text =
    statement pg (insert_message_row pg.now chat_id sender_login kind message_text)

unfoldable pub save_message : Postgres → EventSendMessagePayload → Sql EventSendMessagePayload
save_message pg msg = do
  (id, created_at) ←
      insert_message pg msg.chat_id msg.sender_login message_kind_text (some msg.content)
  pure (record {
    id = id;
    chat_id = msg.chat_id;
    sender_login = msg.sender_login;
    kind = message_kind_text;
    content = msg.content;
    attachments = [];
    created_at = created_at;
  })

-- A transaction: the tables are put back where the function fails, and where the commit does, unless
-- the server applied it and only its acknowledgement was lost. `begin` and `commit` are statements;
-- an error of the rollback is ignored, and the server undoes the rest.
abbrev pub restore : Tables → Db → Db
restore saved db = record db { tables = saved }

abbrev pub commit_or_rollback :
    Postgres → Tables → {A : Type 0} → Result StorageError A × Db → Result StorageError A × Db
commit_or_rollback pg saved (err e, db) = (err e, restore saved (counted db))
commit_or_rollback pg saved (ok a, db) =
    if pg.fault db.calls
    then (
      err commit_failed,
      if pg.commit_applied db.calls
          then counted (counted db)
          else restore saved (counted (counted db)),
    )
    else (ok a, counted db)

unfoldable pub with_tx : Postgres → {A : Type 0} → Sql A → Sql A
with_tx pg fn db =
    if pg.fault db.calls
    then (err begin_failed, counted db)
    else commit_or_rollback pg db.tables (fn (counted db))

unfoldable pub create_message_tx : Postgres → ℤ → String → String → String → Sql (ℤ × ℕ)
create_message_tx pg chat_id sender_login kind content =
    insert_message pg chat_id sender_login kind (nullable_string content)

abbrev pub same_file : ℤ → String → AttachmentRow → Bool
same_file message_id file_id row = row.message_id == message_id && row.file_id == file_id

-- One `insert into message_attachment`, under its cast, checks and unique (message_id, file_id).
abbrev pub insert_attachment_row : ℤ → FileAttachmentRecord → Option String → Sql (Unit {0})
insert_attachment_row message_id a none db = (err constraint_violated, db)
insert_attachment_row message_id a (some file_id) db =
    let moved : Db = record db { attachment_seq = suc db.attachment_seq } in
    let row : AttachmentRow = record {
      id = pos (suc db.attachment_seq);
      message_id = message_id;
      file_id = file_id;
      original_filename = a.original_filename;
      mime_type = a.mime_type;
      size = a.size;
      kind = a.kind;
    } in
    if leb_ℤ (pos 0) a.size && attachment_kind_ok a.kind && any (λ m. m.id == message_id) db.message
    then (if any (same_file message_id file_id) db.message_attachment
        then (err constraint_violated, moved)
        else (
          ok tt,
          record moved {
            tables = record moved.tables { message_attachment = db.message_attachment ++ row ∷ [] };
          },
        ))
    else (err constraint_violated, moved)

unfoldable pub insert_attachment : Postgres → ℤ → FileAttachmentRecord → Sql (Unit {0})
insert_attachment pg message_id a =
    statement pg (insert_attachment_row message_id a (pg.uuid a.file_id))

unfoldable pub create_attachments_tx : Postgres → ℤ → List FileAttachmentRecord → Sql (Unit {0})
create_attachments_tx pg message_id [] = pure tt
create_attachments_tx pg message_id (a ∷ attachments) =
    insert_attachment pg message_id a >> create_attachments_tx pg message_id attachments

unfoldable pub to_attachment_payload : FileAttachmentRecord → AttachmentPayload
to_attachment_payload a = record {
  file_id = a.file_id;
  original_filename = a.original_filename;
  mime_type = a.mime_type;
  size = a.size;
  kind = to_lower a.kind;
  content_url = "";
  download_url = "";
}

unfoldable pub create_file_message_tx :
    Postgres → ℤ → String → List FileAttachmentRecord → Sql EventSendMessagePayload
create_file_message_tx pg chat_id sender_login attachments = do
  (message_id, created_at) ← create_message_tx pg chat_id sender_login message_kind_file ""
  create_attachments_tx pg message_id attachments
  pure (record {
    id = message_id;
    chat_id = chat_id;
    sender_login = sender_login;
    kind = message_kind_file;
    content = "";
    attachments = map to_attachment_payload attachments;
    created_at = created_at;
  })

unfoldable pub create_file_message :
    Postgres → ℤ → String → List FileAttachmentRecord → Sql EventSendMessagePayload
create_file_message pg chat_id sender_login attachments =
    with_tx pg (create_file_message_tx pg chat_id sender_login attachments)

-- The chat of the message that an attachment row belongs to (`join message m on m.id = ma.message_id`).
abbrev pub chats_of_message : ℤ → List MessageRow → List ℤ
chats_of_message message_id rows = map (λ m. m.chat_id) (select (λ m. m.id == message_id) rows)

-- The joined exists-query of UserHasAccessToFile.
abbrev pub attached_for : Tables → String → String → Bool
attached_for t login file_id =
    any
      (λ a.
        a.file_id == file_id
        && any (λ chat_id. member chat_id login t.chat_user)
            (chats_of_message a.message_id t.message))
      t.message_attachment

abbrev pub access_of : String → Option String → Sql Bool
access_of login none db = (err statement_failed, db)
access_of login (some file_id) db = (ok (attached_for db.tables login file_id), db)

unfoldable pub user_has_access_to_file : Postgres → String → String → Sql Bool
user_has_access_to_file pg login file_id =
    statement pg (access_of login (pg.uuid (trim_space file_id)))
