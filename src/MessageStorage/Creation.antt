-- ===== src/MessageStorage/Creation.antt =====
-- CreateFileMessage of messageStorage.go, with withTx, createMessageTx and createAttachmentsTx of tx.go:
-- how it ends.
use simply_chat.Base.{
  ℤ, String, ◌≡◌, ◌⊎◌, List, Result, ok, err, Result-cases, inl, inr, int_eq, string_eq,
}
use simply_chat.Models.{EventSendMessagePayload}
use simply_chat.Postgres.{Postgres}
use simply_chat.MessageStorage.Tables.{Tables, Db, StorageError, commit_failed, counted}
use simply_chat.MessageStorage.Messages.{
  FileAttachmentRecord, create_file_message, create_file_message_tx,
}
use simply_chat.MessageStorage.Stored.{IsStored, create_file_message_tx-IsStored}
use simply_chat.MessageStorage.Transactions.{with_tx-err, with_tx-ok}

module _ (pg : Postgres) (chat_id : ℤ) (login : String) (files : List FileAttachmentRecord)
    (db : Db) where
  abbrev result : Result StorageError EventSendMessagePayload × Db
  result = create_file_message pg chat_id login files db

  abbrev Whole : Type 0
  Whole = IsStored pg chat_id login files db.tables result.1.tables

  pub create_file_message-IsStored :
      (payload : EventSendMessagePayload) → result.0 ≡ ok payload → Whole
  unfolding create_file_message
  create_file_message-IsStored payload done =
      let fn = create_file_message_tx pg chat_id login files in
      let (inner, same) = with_tx-ok pg fn db payload done in
      rw same (create_file_message_tx-IsStored pg chat_id login files (counted db) payload inner)

  lost-commit :
      (e : StorageError)
      → result.0 ≡ err e
      → (result.1.tables ≡ db.tables) ⊎ ((e ≡ commit_failed) × Whole)
  unfolding create_file_message
  lost-commit e failed =
      let fn = create_file_message_tx pg chat_id login files in
      elim (with_tx-err pg fn db e failed) [
        | inl same ↦ inl same
        | inr (payload, lost, inner, same) ↦ inr (
          lost,
          rw same
              (create_file_message_tx-IsStored pg chat_id login files (counted db) payload inner),
        )
      ]

  pub create_file_message-failed :
      (e : StorageError) → result.0 ≡ err e → (result.1.tables ≡ db.tables) ⊎ Whole
  create_file_message-failed e failed = elim (lost-commit e failed) [
    | inl same ↦ inl same
    | inr (_, whole) ↦ inr whole
  ]

-- How the creation of a message with files ends: with the tables `after` and the result.
pub data Creation (pg : Postgres) (chat_id : ℤ) (login : String) (files : List FileAttachmentRecord)
    (before after : Tables) : Result StorageError EventSendMessagePayload → Type 0 where
  stored :
      (payload : EventSendMessagePayload)
      → IsStored pg chat_id login files before after
      → Creation pg chat_id login files before after (ok payload)
  -- the commit was applied, and its acknowledgement was lost
  unconfirmed :
      IsStored pg chat_id login files before after
      → Creation pg chat_id login files before after (err commit_failed)
  nothing :
      (e : StorageError) → after ≡ before → Creation pg chat_id login files before after (err e)

-- A message with files is stored whole or not at all. Stored: the tables have one message more, of
-- this chat and this sender, and for each file, in order, one attachment row of that message with
-- the file's name, type, size, kind and id. It is stored where the creation succeeds, and else only
-- where a commit was applied whose acknowledgement was lost; in every other case of an error the
-- tables are as they were.
pub create_file_message-Creation :
    (pg : Postgres) (chat_id : ℤ) (login : String) (files : List FileAttachmentRecord) (db : Db)
    → let (r, t) = create_file_message pg chat_id login files db in
      Creation pg chat_id login files db.tables t.tables r
create_file_message-Creation pg chat_id login files db =
    elim (Result-cases (create_file_message pg chat_id login files db).0) [
      | inl (payload, done) ↦
          rw done
            (stored payload (create_file_message-IsStored pg chat_id login files db payload done))
      | inr (e, failed) ↦ elim (lost-commit pg chat_id login files db e failed) [
        | inl same ↦ rw failed (nothing e same)
        | inr (lost, whole) ↦ rw (failed, lost) (unconfirmed whole)
      ]
    ]
