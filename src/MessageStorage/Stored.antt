-- ===== src/MessageStorage/Stored.antt =====
-- CreateFileMessage of messageStorage.go, with withTx, createMessageTx and createAttachmentsTx of tx.go:
-- what becomes of the tables.
use simply_chat.Base.{
  ℕ, ℤ, String, ◌≡◌, refl, sym, ap, ◌∙◌, none, some, List, [], ◌∷◌, ◌++◌, ok, Result-cases,
  Bool-cases, Option-cases, inl, inr, arith, int_eq, string_eq,
}
use simply_chat.Models.{EventSendMessagePayload}
use simply_chat.Postgres.{Postgres}
use simply_chat.MessageStorage.Tables.{Tables, Db, AttachmentRow, counted}
use simply_chat.MessageStorage.Messages.{
  FileAttachmentRecord, create_file_message_tx, create_message_tx, create_attachments_tx,
  insert_attachment, insert_message,
}
use simply_chat.MessageStorage.Attachments.{insert_attachment_row-ok}

-- The row says of the attachment what it was given, under the uuid that its id casts to.
pub record IsRow (pg : Postgres) (message_id : ℤ) (a : FileAttachmentRecord) (row : AttachmentRow)
    : Type 0 where
  pub file : pg.uuid a.file_id ≡ some row.file_id
  pub message : row.message_id ≡ message_id
  pub name : row.original_filename ≡ a.original_filename
  pub mime : row.mime_type ≡ a.mime_type
  pub bytes : row.size ≡ a.size
  pub sort : row.kind ≡ a.kind

-- One row for each attachment, in their order.
pub data Rows (pg : Postgres) (message_id : ℤ)
    : List FileAttachmentRecord → List AttachmentRow → Type 0 where
  no_rows : Rows pg message_id [] []
  one_more :
      {a : FileAttachmentRecord} {row : AttachmentRow} {more : List FileAttachmentRecord}
      {rows : List AttachmentRow}
      → IsRow pg message_id a row
      → Rows pg message_id more rows
      → Rows pg message_id (a ∷ more) (row ∷ rows)

-- The tables `after` are `before` with one message of files more, and its attachments.
pub record IsStored (pg : Postgres) (chat_id : ℤ) (login : String)
    (files : List FileAttachmentRecord) (before after : Tables) : Type 0 where
  pub id : ℤ
  pub added_at : ℕ
  pub rows : List AttachmentRow
  pub message :
      after.message
      ≡ before.message
        ++ record {
          id = id;
          chat_id = chat_id;
          sender_login = login;
          kind = "file";
          message_text = none;
          added_at = added_at;
        }
          ∷ []
  pub attachments : after.message_attachment ≡ before.message_attachment ++ rows
  pub each : Rows pg id files rows
  pub chats : after.chat ≡ before.chat
  pub members : after.chat_user ≡ before.chat_user

abbrev pub Attached : Postgres → ℤ → List FileAttachmentRecord → Tables → Tables → Type 0
Attached pg id files s t =
    (rows : List AttachmentRow) × (t
      ≡ record s { message_attachment = s.message_attachment ++ rows })
    × Rows pg id files rows

append_assoc : (a b c : List AttachmentRow) → (a ++ b) ++ c ≡ a ++ (b ++ c)
append_assoc [] b c = refl
append_assoc (x ∷ a) b c = ap (λ l. x ∷ l) (append_assoc a b c)

append_none : (a : List AttachmentRow) → a ++ [] ≡ a
append_none [] = refl
append_none (x ∷ a) = ap (λ l. x ∷ l) (append_none a)

insert-Attached :
    (pg : Postgres) (id : ℤ) (a : FileAttachmentRecord) (db : Db)
    → (insert_attachment pg id a db).0 ≡ ok tt
    → (row : AttachmentRow) × ((insert_attachment pg id a db).1.tables
        ≡ record db.tables { message_attachment = db.message_attachment ++ row ∷ [] })
      × IsRow pg id a row
unfolding insert_attachment
insert-Attached pg id a db h = elim (Bool-cases (pg.fault db.calls)) [
  | inl fault ↦ absurd (ground (arith, fault))
  | inr run ↦ elim (Option-cases (pg.uuid a.file_id)) [
    | inl no_cast ↦ absurd (ground (arith, run, no_cast))
    | inr (f, cast) ↦
        let rows = insert_attachment_row-ok id a f (counted db) (ground (arith, run, cast)) in
        rw (run, cast)
          (
            _,
            rows,
            record {
              file = cast;
              message = refl;
              name = refl;
              mime = refl;
              bytes = refl;
              sort = refl;
            },
          )
  ]
]

create_attachments_tx-Attached :
    (pg : Postgres) (id : ℤ) (files : List FileAttachmentRecord) (db : Db)
    → let (r, t) = create_attachments_tx pg id files db in
      r ≡ ok tt → Attached pg id files db.tables t.tables
unfolding create_attachments_tx
create_attachments_tx-Attached pg id [] db h =
    ([], ap (λ l. record db.tables { message_attachment = l }) (sym (append_none _)), no_rows)
create_attachments_tx-Attached pg id (a ∷ files) db h =
    elim (Result-cases (insert_attachment pg id a db).0) [
      | inr (e, failed) ↦ absurd (ground (arith, failed))
      | inl (_, done) ↦
          let (row, one, is_row) = insert-Attached pg id a db done in
          let next = (insert_attachment pg id a db).1 in
          let (rows, more, all) =
            create_attachments_tx-Attached pg id files next (ground (arith, done)) in
          rw done (
            row ∷ rows,
            more
                ∙ ap
                    (λ (t : Tables). record t { message_attachment = t.message_attachment ++ rows })
                    one
                ∙ ap (λ l. record db.tables { message_attachment = l })
                    (append_assoc db.message_attachment (row ∷ []) rows),
            one_more is_row all,
          )
    ]

insert_message-row :
    (pg : Postgres) (chat_id : ℤ) (login : String) (db : Db) (id : ℤ) (at : ℕ)
    → let (r, t) = create_message_tx pg chat_id login "file" "" db in
      r ≡ ok (id, at)
      → t.tables ≡ record db.tables {
        message =
            db.message
            ++ record {
              id = id;
              chat_id = chat_id;
              sender_login = login;
              kind = "file";
              message_text = none;
              added_at = at;
            }
              ∷ [];
      }
unfolding create_message_tx insert_message
insert_message-row pg chat_id login db id at h = ground (arith, h)

pub create_file_message_tx-IsStored :
    (pg : Postgres) (chat_id : ℤ) (login : String) (files : List FileAttachmentRecord) (db : Db)
    (payload : EventSendMessagePayload)
    → let (r, t) = create_file_message_tx pg chat_id login files db in
      r ≡ ok payload → IsStored pg chat_id login files db.tables t.tables
unfolding create_file_message_tx
create_file_message_tx-IsStored pg chat_id login files db payload h =
    let created = create_message_tx pg chat_id login "file" "" db in
    elim (Result-cases created.0) [
      | inr (e, failed) ↦ absurd (ground (arith, failed))
      | inl ((id, at), made) ↦
          let one = insert_message-row pg chat_id login db id at made in
          elim (Result-cases (create_attachments_tx pg id files created.1).0) [
            | inr (e, failed) ↦ absurd (ground (arith, made, failed))
            | inl (_, done) ↦
                let (rows, grown, each) =
                  create_attachments_tx-Attached pg id files created.1 done in
                rw (made, done)
                  (record {
                    id = id;
                    added_at = at;
                    rows = rows;
                    message = ap (λ t. t.message) grown ∙ ap (λ t. t.message) one;
                    attachments =
                        ap (λ t. t.message_attachment) grown
                        ∙ ap (λ t. t.message_attachment ++ rows) one;
                    each = each;
                    chats = ap (λ t. t.chat) grown ∙ ap (λ t. t.chat) one;
                    members = ap (λ t. t.chat_user) grown ∙ ap (λ t. t.chat_user) one;
                  })
          ]
    ]
