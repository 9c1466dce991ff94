-- ===== src/MessageService/SendFileMessage/Outcomes.antt =====
-- Every way the sending of a message with files can end.
use mathlib.Core.Path.{subst}
use simply_chat.Base.{
  Bool, true, false, leb, length, ◌≡◌, refl, ◌∙◌, Result, Result-cases, Bool-cases, inl, inr, arith,
  nat_eq, string_eq, ◌==◌,
}
use simply_chat.Postgres.{Postgres}
use simply_chat.MessageStorage.Tables.{Db, StorageError}
use simply_chat.MessageStorage.Chats.{chat_exists, is_chat_member}
use simply_chat.MessageService.SendFileMessage.Ending.{
  SendOutcome, refused, tables_of, closing, send_files-SendOutcome,
}
use simply_chat.MessageService.FileClient.{FileServer}
use simply_chat.MessageService.Members.{Redis}
use simply_chat.MessageService.SendFileMessage.{
  SendFileMessageInput, World, send_file_message, send_files, with_db, close_uploads,
}
use simply_chat.MessageService.SendFileMessage.Compensation.{Deletes}

module _ (pg : Postgres) (redis : Redis) (server : FileServer) (input : SendFileMessageInput) where
  queried-tables :
      (w : World pg redis server)
      → ((chat_exists pg input.chat_id w.online.sources.db).1.tables
          ≡ tables_of pg redis server input w)
        × ((db : Db) → (is_chat_member pg input.chat_id input.sender_login db).1.tables ≡ db.tables)
  unfolding chat_exists is_chat_member
  queried-tables w = (ground arith, λ db. ground arith)

  module _ (d : Deletes server) (w : World pg redis server) where
    abbrev exists : Result StorageError Bool × Db
    exists = chat_exists pg input.chat_id w.online.sources.db

    abbrev belongs : Result StorageError Bool × Db
    belongs = is_chat_member pg input.chat_id input.sender_login exists.1

    abbrev Ends : Type 0
    Ends =
        let (r, t) = send_file_message pg redis server input w in
        SendOutcome pg redis server input (tables_of pg redis server input w) w.remote t r

    asked-tables : exists.1.tables ≡ tables_of pg redis server input w
    asked-tables = (queried-tables w).0

    known-tables : belongs.1.tables ≡ tables_of pg redis server input w
    known-tables = (queried-tables w).1 exists.1 ∙ asked-tables

    closed-SendOutcome :
        let (r, t) =
          close_uploads pg redis server input.files
            (send_files pg redis server input)
            (with_db pg redis server (with_db pg redis server w exists.1) belongs.1) in
        SendOutcome pg redis server input (tables_of pg redis server input w) w.remote t r
    closed-SendOutcome =
        let asked = with_db pg redis server (with_db pg redis server w exists.1) belongs.1 in
        closing pg redis server input (
          subst
            (λ u.
              let (r, t) = send_files pg redis server input asked in
              SendOutcome pg redis server input u w.remote t r)
            known-tables (send_files-SendOutcome pg redis server input d asked))

    -- The sending of a message with files ends in one of four ways, given a file service that deletes when
    -- asked. Sent: each of the input's files was uploaded, in order; the message and one attachment
    -- for each file are stored; every member of the chat has access to each file; and the answer
    -- lists the files' ids in that order. Refused: neither the tables nor the file service have
    -- changed. Undone: the tables are as they were, and no file that was uploaded is served any
    -- more. Without files: a commit that the server applied is taken for a failed one, so that the
    -- message is stored, and its files are not served.
    pub send_file_message-SendOutcome : Ends
    unfolding send_file_message
    send_file_message-SendOutcome = elim (Bool-cases (length input.files == 0)) [
      | inl empty ↦ rw empty (refused refl refl)
      | inr files ↦ elim (Bool-cases (leb (length input.files) 10)) [
        | inr many ↦ rw (files, many) (refused refl refl)
        | inl few ↦ elim (Result-cases exists.0) [
          | inr (e, failed) ↦ rw (files, few, failed) (refused asked-tables refl)
          | inl (false, missing) ↦ rw (files, few, missing) (refused asked-tables refl)
          | inl (true, there) ↦ elim (Result-cases belongs.0) [
            | inr (e, failed) ↦ rw (files, few, there, failed) (refused known-tables refl)
            | inl (false, other) ↦ rw (files, few, there, other) (refused known-tables refl)
            | inl (true, belongs_to) ↦ rw (files, few, there, belongs_to) closed-SendOutcome
          ]
        ]
      ]
    ]
