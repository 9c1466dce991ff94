-- ===== src/MessageService/Http/Sender.antt =====
-- Whose message a request with files becomes.
use simply_chat.Base.{
  ℤ, String, Bool, true, false, not, ◌≡◌, refl, ◌∙◌, Option, none, some, List, ok, length, ltb,
  guard-ok, Result-cases, inl, inr, arith, ◌==◌, nat_eq, string_eq, trim_space,
}
use simply_chat.Models.{EventSendMessagePayload}
use simply_chat.Postgres.{Postgres}
use simply_chat.MessageStorage.Chats.{member}
use simply_chat.MessageService.FileClient.{FileServer}
use simply_chat.MessageService.Members.{Redis}
use simply_chat.MessageService.SendFileMessage.{
  SendFileMessageInput, FileUpload, World, send_file_message,
}
use simply_chat.MessageService.SendFileMessage.Sender.{send_file_message-sender}
use simply_chat.MessageService.Http.{
  Request, upload_file_message, parse_uploaded_files, parse_chat_id, send_parsed, open_form, opened,
  open_files,
}

module _ (pg : Postgres) (redis : Redis) (server : FileServer) where
  -- Reading the form leaves the tables alone.
  open_files-tables :
      (files : List FileUpload × Bool) (w : World pg redis server)
      → (open_files pg redis server files w).1.online ≡ w.online
  open_files-tables (files, true) w = refl
  open_files-tables (files, false) w = refl

  open_form-tables :
      (form : Option (List (Option FileUpload))) (w : World pg redis server)
      → (open_form pg redis server form w).1.online ≡ w.online
  open_form-tables none w = refl
  open_form-tables (some files) w = open_files-tables (opened files) w

  send_parsed-sender :
      (chat_id : ℤ) (login : String) (uploads : List FileUpload) (w : World pg redis server)
      (p : EventSendMessagePayload)
      → (send_parsed pg redis server chat_id login uploads w).0 ≡ ok p
      → (p.chat_id ≡ chat_id)
        × (p.sender_login ≡ login)
        × (member chat_id login w.online.sources.db.tables.chat_user ≡ true)
  send_parsed-sender chat_id login uploads w p h =
      let (files, h1) = guard-ok (not (length uploads == 0)) _ _ w p h in
      let (few, h2) = guard-ok (not (ltb 10 (length uploads))) _ _ w p h1 in
      let input : SendFileMessageInput = record {
        chat_id = chat_id;
        sender_login = login;
        files = uploads;
      } in
      elim (Result-cases (send_file_message pg redis server input w).0) [
        | inr (e, failed) ↦ absurd (ground (arith, h2, failed))
        | inl (q, sent) ↦
            send_file_message-sender pg redis server input w p (sent ∙ ground (arith, h2, sent))
      ]

  -- A request that is answered with a message has stored it for the login of its query, trimmed, in the
  -- chat of its path, and that login is a member of the chat.
  pub upload_file_message-sender :
      (atoi : String → Option ℤ) (r : Request) (w : World pg redis server)
      (p : EventSendMessagePayload)
      → (upload_file_message pg redis server atoi r w).0 ≡ ok p
      → (parse_chat_id atoi r ≡ ok p.chat_id)
        × (p.sender_login ≡ trim_space r.login)
        × (member p.chat_id (trim_space r.login) w.online.sources.db.tables.chat_user ≡ true)
  unfolding upload_file_message parse_uploaded_files
  upload_file_message-sender atoi r w p h =
      let (named, h1) = guard-ok (not (trim_space r.login == "")) _ _ w p h in
      elim (Result-cases (parse_chat_id atoi r)) [
        | inr (e, bad) ↦ absurd (ground (arith, h1, bad))
        | inl (chat_id, parsed) ↦
            let form = open_form pg redis server r.form w in
            elim (Result-cases form.0) [
              | inr (e, unread) ↦ absurd (ground (arith, h1, parsed, unread))
              | inl (uploads, read) ↦
                  let (chat, sender, belongs) =
                    send_parsed-sender chat_id (trim_space r.login) uploads form.1 p
                      (ground (arith, h1, parsed, read)) in
                  (
                    ground (arith, parsed, chat),
                    sender,
                    ground (arith, belongs, chat, open_form-tables r.form w),
                  )
            ]
      ]
