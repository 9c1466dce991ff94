-- ===== src/MessageStorage/Operations.antt =====
-- The operations of the storage in sequence, each of which may fail, and the invariant of the tables.
use simply_chat.Base.{
  ℤ, pos, ◌≤ℤ◌, String, ◌≡◌, List, [], ◌∷◌, Option, none, some, arith, Moves, bind-Moves, All,
}
use simply_chat.Models.{EventSendMessagePayload}
use simply_chat.Postgres.{Postgres}
use simply_chat.MessageStorage.Tables.{Db, Sql, counted}
use simply_chat.MessageStorage.Chats.{create_chat, insert_chat, add_user_to_chat, insert_chat_user}
use simply_chat.MessageStorage.Messages.{
  FileAttachmentRecord, save_message, create_file_message, create_file_message_tx, insert_message,
  insert_attachment, insert_attachment_row, create_attachments_tx, create_message_tx, with_tx,
  nullable_string,
}
use simply_chat.MessageStorage.Invariant.{
  IsWellFormed, insert_chat-IsWellFormed, counted-IsWellFormed, insert_chat_user-IsWellFormed,
  statement-keeps,
}

-- The calls of the storage that write.
pub data Operation : Type 0 where
  creates_chat : ℤ → Operation
  adds_user : ℤ → String → Operation
  saves_message : EventSendMessagePayload → Operation
  sends_files : ℤ → String → List FileAttachmentRecord → Operation

unfoldable pub operate : Postgres → Operation → Db → Db
operate pg (creates_chat max_members) db = (create_chat pg max_members db).1
operate pg (adds_user chat_id login) db = (add_user_to_chat pg chat_id login db).1
operate pg (saves_message msg) db = (save_message pg msg db).1
operate pg (sends_files chat_id login attachments) db =
    (create_file_message pg chat_id login attachments db).1

unfoldable pub operate_all : Postgres → List Operation → Db → Db
operate_all pg [] db = db
operate_all pg (o ∷ os) db = operate_all pg os (operate pg o db)

-- A chat is created with a limit that is not negative, as the service does.
abbrev pub IsSensible : Operation → Type 0
IsSensible (creates_chat max_members) = pos 0 ≤ℤ max_members
IsSensible _ = Unit

-- Writes of messages leave the chats as they are.
pub record SameChats (db db' : Db) : Type 0 where
  pub chat : db'.chat ≡ db.chat
  pub chat_user : db'.chat_user ≡ db.chat_user
  pub chat_seq : db'.chat_seq ≡ db.chat_seq

SameChats-IsWellFormed : {db db' : Db} → SameChats db db' → IsWellFormed db → IsWellFormed db'
SameChats-IsWellFormed {db} {db'} same w = record {
  chat_bounded = λ id. rw (same.chat, same.chat_seq) (w.chat_bounded id);
  member_chat = λ id login. rw (same.chat, same.chat_user) (w.member_chat id login);
  capacity = λ id m. rw (same.chat, same.chat_user) (w.capacity id m);
  member_once = λ id login. rw same.chat_user (w.member_once id login);
}

insert_message-SameChats :
    (pg : Postgres) (chat_id : ℤ) (login kind : String) (text : Option String) (db : Db)
    → SameChats db (insert_message pg chat_id login kind text db).1
unfolding insert_message
insert_message-SameChats pg chat_id login kind text db = ground arith

insert_attachment_row-SameChats :
    (message_id : ℤ) (a : FileAttachmentRecord) (file_id : Option String) (db : Db)
    → SameChats db (insert_attachment_row message_id a file_id db).1
insert_attachment_row-SameChats message_id a none db = ground arith
insert_attachment_row-SameChats message_id a (some file_id) db = ground arith

insert_attachment-SameChats :
    (pg : Postgres) (message_id : ℤ) (a : FileAttachmentRecord) (db : Db)
    → SameChats db (insert_attachment pg message_id a db).1
unfolding insert_attachment
insert_attachment-SameChats pg message_id a db =
    ground (arith, insert_attachment_row-SameChats message_id a (pg.uuid a.file_id) (counted db))

SameChats-trans : (a b c : Db) → SameChats a b → SameChats b c → SameChats a c
SameChats-trans a b c p q = ground arith

create_attachments_tx-SameChats :
    (pg : Postgres) (message_id : ℤ) (attachments : List FileAttachmentRecord)
    → Moves SameChats (create_attachments_tx pg message_id attachments)
unfolding create_attachments_tx
create_attachments_tx-SameChats pg message_id [] = λ db. ground arith
create_attachments_tx-SameChats pg message_id (a ∷ attachments) =
    bind-Moves SameChats SameChats-trans (insert_attachment pg message_id a)
      (λ _. create_attachments_tx pg message_id attachments)
      (insert_attachment-SameChats pg message_id a)
      (λ _. create_attachments_tx-SameChats pg message_id attachments)

create_file_message_tx-SameChats :
    (pg : Postgres) (chat_id : ℤ) (login : String) (attachments : List FileAttachmentRecord)
    → Moves SameChats (create_file_message_tx pg chat_id login attachments)
unfolding create_file_message_tx create_message_tx
create_file_message_tx-SameChats pg chat_id login attachments =
    bind-Moves SameChats SameChats-trans _ _
      (insert_message-SameChats pg chat_id login "file" (nullable_string ""))
      λ row.
        bind-Moves SameChats SameChats-trans (create_attachments_tx pg row.0 attachments) _
          (create_attachments_tx-SameChats pg row.0 attachments) (λ _ db. ground arith)

pub save_message-SameChats :
    (pg : Postgres) (msg : EventSendMessagePayload) → Moves SameChats (save_message pg msg)
unfolding save_message insert_message
save_message-SameChats pg msg db = ground arith

with_tx-SameChats :
    (pg : Postgres) {A : Type 0} (fn : Sql A) → Moves SameChats fn → Moves SameChats (with_tx pg fn)
unfolding with_tx
with_tx-SameChats pg fn p db = ground (arith, p (counted db))

-- Every write, failing or not, keeps the tables well formed.
pub operate-IsWellFormed :
    (pg : Postgres) (o : Operation) (db : Db)
    → IsSensible o
    → IsWellFormed db
    → IsWellFormed (operate pg o db)
unfolding operate create_chat add_user_to_chat save_message create_file_message
operate-IsWellFormed pg (creates_chat max_members) db h w =
    statement-keeps pg IsWellFormed (insert_chat max_members) db (counted-IsWellFormed w)
      (insert_chat-IsWellFormed (counted db) (counted-IsWellFormed w) max_members h)
operate-IsWellFormed pg (adds_user chat_id login) db h w =
    statement-keeps pg IsWellFormed (insert_chat_user chat_id login) db (counted-IsWellFormed w)
      (insert_chat_user-IsWellFormed (counted db) (counted-IsWellFormed w) chat_id login)
operate-IsWellFormed pg (saves_message msg) db h w =
    SameChats-IsWellFormed (save_message-SameChats pg msg db) w
operate-IsWellFormed pg (sends_files chat_id login attachments) db h w =
    SameChats-IsWellFormed
      (with_tx-SameChats pg _ (create_file_message_tx-SameChats pg chat_id login attachments) db) w

abbrev pub empty_db : Db
empty_db = record {
  tables = record { chat = []; chat_user = []; message = []; message_attachment = [] };
  chat_seq = 0;
  message_seq = 0;
  attachment_seq = 0;
  calls = 0;
}

pub empty_db-IsWellFormed : IsWellFormed empty_db
empty_db-IsWellFormed = record {
  chat_bounded = λ id h. ground arith;
  member_chat = λ id login h. ground arith;
  capacity = λ id m h. ground arith;
  member_once = λ id login. omega arith;
}

operate_all-IsWellFormed :
    (pg : Postgres) (os : List Operation) (db : Db)
    → All IsSensible os
    → IsWellFormed db
    → IsWellFormed (operate_all pg os db)
unfolding operate_all
operate_all-IsWellFormed pg [] db h w = w
operate_all-IsWellFormed pg (o ∷ os) db h w =
    operate_all-IsWellFormed pg os (operate pg o db) h.1 (operate-IsWellFormed pg o db h.0 w)

-- From the empty database, after any sequence of writes that create chats with a limit that is not
-- negative, and whichever statements fail: no chat has more members than its limit, no user is a
-- member of a chat twice, every membership is of a chat that exists, and chat ids stay at or below
-- their sequence.
pub storage-IsWellFormed :
    (pg : Postgres) (os : List Operation)
    → All IsSensible os
    → IsWellFormed (operate_all pg os empty_db)
storage-IsWellFormed pg os h = operate_all-IsWellFormed pg os empty_db h empty_db-IsWellFormed
