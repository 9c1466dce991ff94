-- ===== src/MessageStorage/FileMessages.antt =====
-- CreateFileMessage of messageStorage.go as its callers see it, and the access to its files.
use mathlib.Core.Path.{subst}
use simply_chat.Base.{
  ℕ, suc, ℤ, pos, String, Bool, true, ◌&&◌, ◌≡◌, sym, ap, ◌∙◌, Option, some, List, [], ◌∷◌, ◌++◌,
  map, any, any-append, All, Result, ok, Result-cases, Bool-cases, inl, inr, arith, ◌==◌, ==_iff,
  ==_refl, int_eq, string_eq,
}
use simply_chat.Models.{EventSendMessagePayload}
use simply_chat.Postgres.{Postgres}
use simply_chat.MessageStorage.Tables.{
  Tables, Db, AttachmentRow, ChatUserRow, MessageRow, StorageError, counted,
}
use simply_chat.MessageStorage.Chats.{member}
use simply_chat.MessageStorage.Messages.{
  FileAttachmentRecord, create_file_message, create_file_message_tx, create_message_tx,
  create_attachments_tx, insert_message, same_file, attached_for, to_attachment_payload,
  nullable_string, message_kind_file, chats_of_message,
}
use simply_chat.MessageStorage.Transactions.{with_tx-ok}
use simply_chat.MessageStorage.Attachments.{IsRecorded, create_attachments_tx-ok}

-- The join of UserHasAccessToFile finds a member of a chat in which the file was sent.
attached_for-of :
    (t : Tables) (login f : String) (chat_id message_id : ℤ)
    → member chat_id login t.chat_user ≡ true
    → any (λ c. member c login t.chat_user) (chats_of_message message_id t.message) ≡ true
    → any (same_file message_id f) t.message_attachment ≡ true
    → attached_for t login f ≡ true
attached_for-of t login f chat_id message_id is_member sent there = go t.message_attachment there
  where
    go :
        (rows : List AttachmentRow)
        → any (same_file message_id f) rows ≡ true
        → any
            (λ a.
              a.file_id == f
              && any (λ c. member c login t.chat_user) (chats_of_message a.message_id t.message))
            rows
          ≡ true
    go [] h = absurd (ground arith)
    go (a ∷ rows) h = elim (Bool-cases (same_file message_id f a)) [
      | inr other ↦ ground (arith, go rows (ground arith))
      | inl same ↦
          let at : a.message_id ≡ message_id = (==_iff a.message_id message_id).0 (ground arith) in
          let of : (a.file_id == f) ≡ true = ground arith in rw (of, at, sent)
    ]

abbrev sent_to : ℤ → ℤ → MessageRow → Bool
sent_to id chat_id m = m.id == id && m.chat_id == chat_id

chats_of_message-of :
    (p : ℤ → Bool) (id chat_id : ℤ) (rows : List MessageRow)
    → any (sent_to id chat_id) rows ≡ true
    → p chat_id ≡ true
    → any p (chats_of_message id rows) ≡ true
chats_of_message-of p id chat_id [] h q = absurd (ground arith)
chats_of_message-of p id chat_id (m ∷ rows) h q = elim (Bool-cases (sent_to id chat_id m)) [
  | inr other ↦ ground (arith, chats_of_message-of p id chat_id rows (ground arith) q)
  | inl same ↦
      let at : m.chat_id ≡ chat_id = (==_iff m.chat_id chat_id).0 (ground arith) in
      let of : (m.id == id) ≡ true = ground arith in rw (of, at, q)
]

abbrev message_row : (ℕ → ℕ) → ℤ → String → String → Option String → Db → MessageRow
message_row now chat_id login kind content db = record {
  id = pos (suc db.message_seq);
  chat_id = chat_id;
  sender_login = login;
  kind = kind;
  message_text = content;
  added_at = now db.calls;
}

insert_message-ok :
    (pg : Postgres) (chat_id : ℤ) (login kind : String) (content : Option String) (db : Db) (id : ℤ)
    (at : ℕ)
    → let (r, t) = insert_message pg chat_id login kind content db in
      r ≡ ok (id, at)
      → (any (sent_to id chat_id) t.tables.message ≡ true)
        × (t.tables.chat_user ≡ db.tables.chat_user)
unfolding insert_message
insert_message-ok pg chat_id login kind content db id at h =
    let row = message_row pg.now chat_id login kind content (counted db) in
    let t = (insert_message pg chat_id login kind content db).1 in
    let rows : t.tables.message ≡ db.tables.message ++ row ∷ [] = ground arith in
    let number : pos (suc db.message_seq) ≡ id = ground arith in
    (
      ap (any (sent_to id chat_id)) rows
          ∙ any-append (sent_to id chat_id) db.tables.message (row ∷ [])
          ∙ ground (arith, (==_iff (pos (suc db.message_seq)) id).1 number, ==_refl chat_id),
      ground arith,
    )

-- Every member of the chat gets at the file with this id.
abbrev pub IsShared : Postgres → ℤ → List ChatUserRow → Tables → FileAttachmentRecord → Type 0
IsShared pg chat_id users t a =
    (f : String) × (pg.uuid a.file_id ≡ some f)
    × ((reader : String) → member chat_id reader users ≡ true → attached_for t reader f ≡ true)

All-IsShared :
    (pg : Postgres) (chat_id id : ℤ) (t : Tables) (rows : List FileAttachmentRecord)
    → any (sent_to id chat_id) t.message ≡ true
    → All (IsRecorded pg t id) rows
    → All (IsShared pg chat_id t.chat_user t) rows
All-IsShared pg chat_id id t [] sent h = tt
All-IsShared pg chat_id id t (a ∷ rows) sent ((f, cast, there), more) = (
  (
    f,
    cast,
    λ reader is_member.
        attached_for-of t reader f chat_id id is_member
          (chats_of_message-of (λ c. member c reader t.chat_user) id chat_id t.message sent
            is_member)
          there,
  ),
  All-IsShared pg chat_id id t rows sent more,
)

module _ (pg : Postgres) (chat_id : ℤ) (login : String) (rows : List FileAttachmentRecord) where
  abbrev message_created : Db → Result StorageError (ℤ × ℕ) × Db
  message_created = create_message_tx pg chat_id login message_kind_file ""

  create_file_message_tx-ok :
      (db : Db) (payload : EventSendMessagePayload)
      → let (r, t) = create_file_message_tx pg chat_id login rows db in
        r ≡ ok payload
        → All (IsShared pg chat_id db.chat_user t.tables) rows
          × (payload.attachments ≡ map to_attachment_payload rows)
  unfolding create_file_message_tx create_message_tx
  create_file_message_tx-ok db payload h = elim (Result-cases (message_created db).0) [
    | inr (e, failed) ↦ absurd (ground (arith, failed))
    | inl ((id, at), made) ↦
        let (sent, users) =
          insert_message-ok pg chat_id login message_kind_file (nullable_string "") db id at made in
        elim (Result-cases (create_attachments_tx pg id rows (message_created db).1).0) [
          | inr (e, failed) ↦ absurd (ground (arith, made, failed))
          | inl (_, done) ↦
              let (grown, all) = create_attachments_tx-ok pg id rows (message_created db).1 done in
              let t = (create_attachments_tx pg id rows (message_created db).1).1 in
              let same : t.tables.chat_user ≡ db.chat_user = grown.same_members ∙ users in
              let shared : All (IsShared pg chat_id db.chat_user t.tables) rows =
                subst (λ u. All (IsShared pg chat_id u t.tables) rows) same
                  (All-IsShared pg chat_id id t.tables rows
                    (ap (any (sent_to id chat_id)) grown.same_messages ∙ sent) all) in
              rw (made, done) (shared, ground (arith, made, done))
        ]
  ]

  -- A message with files that is stored gives every member of the chat access to each file that it
  -- was created with; the answer lists these files.
  pub create_file_message-IsShared :
      (db : Db) (payload : EventSendMessagePayload)
      → let (r, t) = create_file_message pg chat_id login rows db in
        r ≡ ok payload
        → All (IsShared pg chat_id db.chat_user t.tables) rows
          × (payload.attachments ≡ map to_attachment_payload rows)
  unfolding create_file_message
  create_file_message-IsShared db payload h =
      let fn = create_file_message_tx pg chat_id login rows in
      let (inner, tables) = with_tx-ok pg fn db payload h in
      subst
        (λ t.
          All (IsShared pg chat_id db.chat_user t) rows
          × (payload.attachments ≡ map to_attachment_payload rows))
        (sym tables) (create_file_message_tx-ok (counted db) payload inner)
