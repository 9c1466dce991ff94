-- ===== src/MessageStorage/Chats.antt =====
-- Chats and their members: CreateChat, AddUserToChat and the queries on `chat` and `chat_user` of
-- messageService/internal/storage/postgres/messageStorage/messageStorage.go.
use simply_chat.Base.{
  ℕ, suc, ℤ, pos, ltb_ℤ, String, Bool, false, ◌&&◌, Option, none, some, List, [], ◌∷◌, ◌++◌, map,
  length, select, any, ok, err, ◌==◌, int_eq, string_eq, if◌then◌else◌,
}
use simply_chat.Models.{EventChatPayload}
use simply_chat.Postgres.{Postgres}
use simply_chat.MessageStorage.Tables.{
  ChatRow, ChatUserRow, Sql, constraint_violated, cant_add_user, statement, query_rows, query_value,
}

abbrev pub insert_chat : ℤ → Sql ℤ
insert_chat max_members db =
    let id = pos (suc db.chat_seq) in
    let row : ChatRow = record { id = id; max_members = max_members } in
    (
      ok id,
      record db {
        chat_seq = suc db.chat_seq;
        tables = record db.tables { chat = db.chat ++ row ∷ [] };
      },
    )

unfoldable pub create_chat : Postgres → ℤ → Sql ℤ
create_chat pg max_members = statement pg (insert_chat max_members)

abbrev pub in_chat : ℤ → ChatUserRow → Bool
in_chat chat_id row = row.chat_id == chat_id

-- `where chat_id = $1`
abbrev pub members_of : ℤ → List ChatUserRow → List ChatUserRow
members_of chat_id rows = select (in_chat chat_id) rows

unfoldable pub get_all_chat_members : Postgres → ℤ → Sql (List String)
get_all_chat_members pg chat_id =
    query_rows pg λ db. map (λ row. row.user_login) (members_of chat_id db.chat_user)

-- `select max_members from chat where id = $1`: NULL where there is no such chat.
abbrev pub max_members_of : ℤ → List ChatRow → Option ℤ
max_members_of chat_id [] = none
max_members_of chat_id (c ∷ cs) =
    if c.id == chat_id then some c.max_members else max_members_of chat_id cs

-- `count < max_members`, which is not true where either side is NULL.
abbrev pub has_room : ℕ → Option ℤ → Bool
has_room count none = false
has_room count (some max_members) = ltb_ℤ (pos count) max_members

abbrev pub is_row : ℤ → String → ChatUserRow → Bool
is_row chat_id login row = row.chat_id == chat_id && row.user_login == login

abbrev pub member : ℤ → String → List ChatUserRow → Bool
member chat_id login rows = any (is_row chat_id login) rows

-- The insert-select of the member, with the primary key (chat_id, user_login); no row inserted is
-- an error of the caller. A chat with room exists, so the foreign key holds.
abbrev pub insert_chat_user : ℤ → String → Sql (Unit {0})
insert_chat_user chat_id user_login db =
    let row : ChatUserRow = record { chat_id = chat_id; user_login = user_login } in
    if has_room (length (members_of chat_id db.chat_user)) (max_members_of chat_id db.chat)
    then if member chat_id user_login db.chat_user
      then (err constraint_violated, db)
      else (ok tt, record db { tables = record db.tables { chat_user = db.chat_user ++ row ∷ [] } })
    else (err cant_add_user, db)

unfoldable pub add_user_to_chat : Postgres → ℤ → String → Sql (Unit {0})
add_user_to_chat pg chat_id user_login = statement pg (insert_chat_user chat_id user_login)

unfoldable pub get_all_user_chats : Postgres → String → Sql (List EventChatPayload)
get_all_user_chats pg login = query_rows pg λ db.
    map (λ row. record { chat_id = row.chat_id; chat_type = "" })
      (select (λ row. row.user_login == login) db.chat_user)

abbrev pub chat_in : ℤ → List ChatRow → Bool
chat_in chat_id rows = any (λ row. row.id == chat_id) rows

unfoldable pub chat_exists : Postgres → ℤ → Sql Bool
chat_exists pg chat_id = query_value pg λ db. chat_in chat_id db.chat

unfoldable pub is_chat_member : Postgres → ℤ → String → Sql Bool
is_chat_member pg chat_id login = query_value pg λ db. member chat_id login db.chat_user
