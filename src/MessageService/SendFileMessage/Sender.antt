-- ===== src/MessageService/SendFileMessage/Sender.antt =====
-- Whose message a message with files is.
use simply_chat.Base.{
  ℤ, String, true, false, ◌≡◌, List, Result, ok, err, length, leb, guard-ok, Result-cases,
  Option-cases, Bool-cases, inl, inr, arith, ◌==◌, nat_eq, map, [], not,
}
use simply_chat.Models.{EventSendMessagePayload}
use simply_chat.Postgres.{Postgres}
use simply_chat.MessageStorage.Tables.{Db, StorageError, Tables, counted}
use simply_chat.MessageStorage.Chats.{chat_exists, is_chat_member, member}
use simply_chat.MessageStorage.Messages.{
  FileAttachmentRecord, create_file_message, create_file_message_tx, create_message_tx,
  create_attachments_tx, with_tx, commit_or_rollback,
}
use simply_chat.MessageService.FileClient.{FileServer}
use simply_chat.MessageService.Members.{Redis}
use simply_chat.MessageService.FanOut.{enrich_message_payload}
use simply_chat.MessageService.SendFileMessage.{
  SendFileMessageInput, World, send_file_message, send_files, create_of, with_db, upload_all,
  attachment_of,
}

module _ (pg : Postgres) (chat_id : ℤ) (login : String) (rows : List FileAttachmentRecord) where
  create_tx-sender :
      (db : Db) (p : EventSendMessagePayload)
      → (create_file_message_tx pg chat_id login rows db).0 ≡ ok p
      → (p.chat_id ≡ chat_id) × (p.sender_login ≡ login)
  unfolding create_file_message_tx
  create_tx-sender db p h =
      elim (Result-cases (create_message_tx pg chat_id login "file" "" db).0) [
        | inr (e, failed) ↦ absurd (ground (arith, h, failed))
        | inl ((id, created_at), made) ↦
            elim (Result-cases
              (create_attachments_tx pg id rows
                (create_message_tx pg chat_id login "file" "" db).1).0) [
                  | inr (e, failed) ↦ absurd (ground (arith, h, made, failed))
                  | inl (_, stored) ↦
                      (ground (arith, h, made, stored), ground (arith, h, made, stored))
                ]
      ]

  commit-ok :
      (saved : Tables) {A : Type 0} (r : Result StorageError A) (db : Db) (a : A)
      → (commit_or_rollback pg saved (r, db)).0 ≡ ok a
      → r ≡ ok a
  commit-ok saved (err e) db a h = absurd (ground (arith, h))
  commit-ok saved (ok b) db a h = elim (Bool-cases (pg.fault db.calls)) [
    | inl fault ↦ absurd (ground (arith, h, fault))
    | inr run ↦ ground (arith, h, run)
  ]

  create_file_message-sender :
      (db : Db) (p : EventSendMessagePayload)
      → (create_file_message pg chat_id login rows db).0 ≡ ok p
      → (p.chat_id ≡ chat_id) × (p.sender_login ≡ login)
  unfolding create_file_message with_tx
  create_file_message-sender db p h = elim (Bool-cases (pg.fault db.calls)) [
    | inl fault ↦ absurd (ground (arith, h, fault))
    | inr run ↦ create_tx-sender (counted db) p (
        let (r, t) = create_file_message_tx pg chat_id login rows (counted db) in
        commit-ok db.tables r t p (ground (arith, h, run)))
  ]

module _ (pg : Postgres) (redis : Redis) (server : FileServer) (input : SendFileMessageInput) where
  send_files-sender :
      (w : World pg redis server) (p : EventSendMessagePayload)
      → (send_files pg redis server input w).0 ≡ ok p
      → (p.chat_id ≡ input.chat_id) × (p.sender_login ≡ input.sender_login)
  unfolding enrich_message_payload
  send_files-sender w p h =
      let run = (upload_all pg redis server input.sender_login [] input.files w.remote).0 in
      elim (Option-cases run.failed) [
        | inr (e, failed) ↦ absurd (ground (arith, h, failed))
        | inl done ↦
            elim (Result-cases
              (create_of pg redis server input run.uploaded w.online.sources.db).0) [
                | inr (e, failed) ↦ absurd (ground (arith, h, done, failed))
                | inl (payload, made) ↦
                    let (chat, sender) =
                      create_file_message-sender pg input.chat_id input.sender_login
                        (map attachment_of run.uploaded) w.online.sources.db payload made in
                    (ground (arith, h, done, made, chat), ground (arith, h, done, made, sender))
              ]
      ]

  queried :
      (w : World pg redis server)
      → (chat_exists pg input.chat_id w.online.sources.db).1.tables ≡ w.online.sources.db.tables
  unfolding chat_exists
  queried w = ground arith

  member_asked :
      (db : Db)
      → (is_chat_member pg input.chat_id input.sender_login db).0 ≡ ok true
      → member input.chat_id input.sender_login db.tables.chat_user ≡ true
  unfolding is_chat_member
  member_asked db h = elim (Bool-cases (pg.fault db.calls)) [
    | inl fault ↦ absurd (ground (arith, h, fault))
    | inr run ↦ ground (arith, h, run)
  ]

  -- A message with files that is sent is a message of the login that the input names, in the chat that
  -- it names, and that login is a member of the chat.
  pub send_file_message-sender :
      (w : World pg redis server) (p : EventSendMessagePayload)
      → (send_file_message pg redis server input w).0 ≡ ok p
      → (p.chat_id ≡ input.chat_id)
        × (p.sender_login ≡ input.sender_login)
        × (member input.chat_id input.sender_login w.online.sources.db.tables.chat_user ≡ true)
  unfolding send_file_message
  send_file_message-sender w p h =
      let (files, h1) = guard-ok (not (length input.files == 0)) _ _ w p h in
      let (few, h2) = guard-ok (leb (length input.files) 10) _ _ w p h1 in
      let exists = chat_exists pg input.chat_id w.online.sources.db in
      elim (Result-cases exists.0) [
        | inr (e, failed) ↦ absurd (ground (arith, h2, failed))
        | inl (false, missing) ↦ absurd (ground (arith, h2, missing))
        | inl (true, there) ↦
            elim (Result-cases (is_chat_member pg input.chat_id input.sender_login exists.1).0) [
              | inr (e, failed) ↦ absurd (ground (arith, h2, there, failed))
              | inl (false, other) ↦ absurd (ground (arith, h2, there, other))
              | inl (true, belongs) ↦
                  let belongs_to = is_chat_member pg input.chat_id input.sender_login exists.1 in
                  let (chat, sender) =
                    send_files-sender
                      (with_db pg redis server (with_db pg redis server w exists.1) belongs_to.1) p
                      (ground (arith, h2, there, belongs)) in
                  (chat, sender, ground (arith, queried w, member_asked exists.1 belongs))
            ]
      ]
