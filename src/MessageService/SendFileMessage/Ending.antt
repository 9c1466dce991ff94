-- ===== src/MessageService/SendFileMessage/Ending.antt =====
-- How the sending of a message with files can end, once it is asked that the sender may send it.
use mathlib.Core.Path.{subst}
use simply_chat.Base.{
  true, false, ◌≡◌, refl, sym, ap, ◌∙◌, Option, none, some, String, List, [], ◌∷◌, map, All, Result,
  ok, err, Result-cases, Option-cases, inl, inr, nat_eq, string_eq,
}
use simply_chat.Models.{AttachmentPayload, EventSendMessagePayload}
use simply_chat.Postgres.{Postgres}
use simply_chat.MessageStorage.Tables.{Db, Tables, ChatUserRow, StorageError}
use simply_chat.MessageStorage.Chats.{member}
use simply_chat.MessageStorage.Messages.{to_attachment_payload, attached_for}
use simply_chat.MessageStorage.FileMessages.{IsShared, create_file_message-IsShared}
use simply_chat.MessageStorage.Stored.{IsStored}
use simply_chat.MessageStorage.Creation.{create_file_message-IsStored, create_file_message-failed}
use simply_chat.MessageService.SendFileMessage.Uploading.{Uploading, upload_all-Uploading}
use simply_chat.MessageService.FileClient.{FileServer, UploadedFile, ClientError, Content}
use simply_chat.MessageService.Members.{Redis}
use simply_chat.MessageService.FanOut.{enrich_message_payload, fan_out_message-tables, with_urls}
use simply_chat.MessageService.SendFileMessage.{
  SendFileMessageInput, SendError, save_file_message, World, Uploads, upload_all,
  compensate_uploaded_files, attachment_of, send_files, with_db, create_of,
}
use simply_chat.MessageService.SendFileMessage.Compensation.{
  Deletes, compensate-gone, upload_all-IsNamed,
}

module _ (pg : Postgres) (redis : Redis) (server : FileServer) (input : SendFileMessageInput) where
  abbrev pub tables_of : World pg redis server → Tables
  tables_of w = w.online.sources.db.tables

  -- The uploads that this input leads to.
  abbrev run : server.Remote → Uploads
  run remote = (upload_all pg redis server input.sender_login [] input.files remote).0

  -- Every member of the chat gets at the file with this id.
  abbrev pub IsFileShared : List ChatUserRow → Tables → String → Type 0
  IsFileShared users t id =
      (f : String) × (pg.uuid id ≡ some f)
      × ((reader : String)
          → member input.chat_id reader users ≡ true
          → attached_for t reader f ≡ true)

  abbrev pub AreGone : server.Remote → List UploadedFile → Type 0
  AreGone remote = All (λ (f : UploadedFile). server.holds remote f.id ≡ false)

  -- How the sending ends: with the result `r` and the state `t`, from these tables and this state of
  -- the file service.
  pub data SendOutcome (tables : Tables) (remote : server.Remote) (t : World pg redis server)
      : Result SendError EventSendMessagePayload → Type 0 where
    -- neither the tables nor the file service have been changed
    refused :
        {e : SendError}
        → tables_of t ≡ tables
        → t.remote ≡ remote
        → SendOutcome tables remote t (err e)
    -- the tables are as before, and no file that was uploaded is served
    undone :
        {e : SendError} (us : List UploadedFile) (failed : Option ClientError) (s : server.Remote)
        → Uploading server input.sender_login input.files remote us failed s
        → tables_of t ≡ tables
        → AreGone t.remote us
        → SendOutcome tables remote t (err e)
    -- the message is stored, though its commit failed, and no file of it is served
    without_files :
        (us : List UploadedFile) (s : server.Remote)
        → Uploading server input.sender_login input.files remote us none s
        → IsStored pg input.chat_id input.sender_login (map attachment_of us) tables (tables_of t)
        → AreGone t.remote us
        → SendOutcome tables remote t (err save_file_message)
    -- every file was uploaded, and every member gets at it
    sent :
        (answer : EventSendMessagePayload) (us : List UploadedFile)
        → Uploading server input.sender_login input.files remote us none t.remote
        → IsStored pg input.chat_id input.sender_login (map attachment_of us) tables (tables_of t)
        → All (λ (u : UploadedFile). IsFileShared tables.chat_user (tables_of t) u.id) us
        → map (λ (a : AttachmentPayload). a.file_id) answer.attachments
          ≡ map (λ (u : UploadedFile). u.id) us
        → SendOutcome tables remote t (ok answer)

  -- Closing the readers changes no outcome.
  pub closing :
      {tables : Tables} {remote : server.Remote} {t : World pg redis server}
      {r : Result SendError EventSendMessagePayload} {closed : List Content}
      → SendOutcome tables remote t r
      → SendOutcome tables remote (record t { closed = closed }) r
  closing (refused same unchanged) = refused same unchanged
  closing (undone us failed s all same gone) = undone us failed s all same gone
  closing (without_files us s all whole gone) = without_files us s all whole gone
  closing (sent answer us all whole shared listing) = sent answer us all whole shared listing

  each-shared :
      (users : List ChatUserRow) (t : Tables) (us : List UploadedFile)
      → All (IsShared pg input.chat_id users t) (map attachment_of us)
      → All (λ (u : UploadedFile). IsFileShared users t u.id) us
  each-shared users t [] h = tt
  each-shared users t (u ∷ us) (one, more) = (one, each-shared users t us more)

  listed :
      (us : List UploadedFile)
      → map
          (λ (a : AttachmentPayload). a.file_id)
          (map with_urls (map to_attachment_payload (map attachment_of us)))
        ≡ map (λ (u : UploadedFile). u.id) us
  unfolding to_attachment_payload
  listed [] = refl
  listed (u ∷ us) = ap (λ ids. u.id ∷ ids) (listed us)

  answered :
      (us : List UploadedFile) (payload : EventSendMessagePayload)
      → payload.attachments ≡ map to_attachment_payload (map attachment_of us)
      → map (λ (a : AttachmentPayload). a.file_id) (enrich_message_payload payload).attachments
        ≡ map (λ (u : UploadedFile). u.id) us
  unfolding enrich_message_payload
  answered us payload h =
      ap (λ l. map (λ (a : AttachmentPayload). a.file_id) (map with_urls l)) h ∙ listed us

  module _ (d : Deletes server) (w : World pg redis server) where
    abbrev remote_after : server.Remote
    remote_after = (upload_all pg redis server input.sender_login [] input.files w.remote).1

    abbrev uploaded : List UploadedFile
    uploaded = (run w.remote).uploaded

    abbrev created : Result StorageError EventSendMessagePayload × Db
    created = create_of pg redis server input uploaded w.online.sources.db

    gone : AreGone (compensate_uploaded_files pg redis server uploaded remote_after) uploaded
    gone =
        compensate-gone pg redis server d uploaded remote_after
          (upload_all-IsNamed pg redis server d input.sender_login [] input.files w.remote tt)

    uploading :
        Uploading server input.sender_login input.files w.remote uploaded
          (run w.remote).failed
          remote_after
    uploading =
        let (us, same, all) =
          upload_all-Uploading pg redis server input.sender_login [] input.files w.remote in
        subst
          (λ us.
            Uploading server input.sender_login input.files w.remote us (run w.remote).failed
              remote_after)
          (sym same) all

    -- What follows where every file was uploaded.
    created-SendOutcome :
        (run w.remote).failed ≡ none
        → let (r, t) = send_files pg redis server input w in SendOutcome (tables_of w) w.remote t r
    created-SendOutcome done =
        let all : Uploading server input.sender_login input.files w.remote uploaded none
            remote_after =
          subst
            (λ f. Uploading server input.sender_login input.files w.remote uploaded f remote_after)
            done uploading in
        elim (Result-cases created.0) [
          | inr (e, failed) ↦
              elim (create_file_message-failed pg input.chat_id input.sender_login
                (map attachment_of uploaded) w.online.sources.db e failed) [
                  | inl same ↦ rw (done, failed) (undone uploaded none remote_after all same gone)
                  | inr whole ↦
                      rw (done, failed) (without_files uploaded remote_after all whole gone)
                ]
          | inl (payload, made) ↦
              let (shared, listing) =
                create_file_message-IsShared pg input.chat_id input.sender_login
                  (map attachment_of uploaded) w.online.sources.db payload made in
              let whole =
                create_file_message-IsStored pg input.chat_id input.sender_login
                  (map attachment_of uploaded) w.online.sources.db payload made in
              let same =
                fan_out_message-tables pg redis (enrich_message_payload payload)
                  (with_db pg redis server w created.1).online in
              rw (done, made)
                (sent (enrich_message_payload payload) uploaded all
                  (subst
                    (IsStored pg input.chat_id input.sender_login (map attachment_of uploaded)
                      (tables_of w))
                    (sym same) whole)
                  (subst
                    (λ u.
                      All (λ (f : UploadedFile). IsFileShared (tables_of w).chat_user u f.id)
                        uploaded)
                    (sym same)
                    (each-shared (tables_of w).chat_user created.1.tables uploaded shared))
                  (answered uploaded payload listing))
        ]

    pub send_files-SendOutcome :
        let (r, t) = send_files pg redis server input w in SendOutcome (tables_of w) w.remote t r
    send_files-SendOutcome = elim (Option-cases (run w.remote).failed) [
      | inl done ↦ created-SendOutcome done
      | inr (e, failed) ↦
          let until : Uploading server input.sender_login input.files w.remote uploaded (some e)
              remote_after =
            subst
              (λ f.
                Uploading server input.sender_login input.files w.remote uploaded f remote_after)
              failed uploading in
          rw failed (undone uploaded (some e) remote_after until refl gone)
    ]
