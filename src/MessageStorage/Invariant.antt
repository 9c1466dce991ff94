-- ===== src/MessageStorage/Invariant.antt =====
-- The well-formedness of the tables, through each operation on them.
use simply_chat.Base.{
  ℕ, suc, ◌≤◌, ℤ, pos, ◌≤ℤ◌, String, true, false, some, List, [], ◌∷◌, ◌++◌, length, select,
  select-append, any-append, length-select-of_any, length-append, ◌≡◌, refl, ◌==◌, ==_iff, ==_refl,
  int_eq, string_eq, arith, if◌then◌else◌, Bool-cases, inl, inr,
}
use simply_chat.Postgres.{Postgres}
use simply_chat.MessageStorage.Tables.{ChatRow, ChatUserRow, Db, Sql, counted, statement}
use simply_chat.MessageStorage.Chats.{
  insert_chat, insert_chat_user, in_chat, members_of, max_members_of, has_room, is_row, member,
  chat_in,
}

pub record IsWellFormed (db : Db) : Type 0 where
  pub chat_bounded : (id : ℤ) → chat_in id db.chat ≡ true → id ≤ℤ pos db.chat_seq
  pub member_chat :
      (id : ℤ) (login : String) → member id login db.chat_user ≡ true → chat_in id db.chat ≡ true
  pub capacity :
      (id m : ℤ)
      → max_members_of id db.chat ≡ some m
      → pos (length (members_of id db.chat_user)) ≤ℤ m
  pub member_once : (id : ℤ) (login : String) → length (select (is_row id login) db.chat_user) ≤ 1

max_members_of-append :
    (id : ℤ) (cs : List ChatRow) (c : ChatRow)
    → max_members_of id (cs ++ c ∷ [])
      ≡ (if chat_in id cs then max_members_of id cs else max_members_of id (c ∷ []))
max_members_of-append id [] c = refl
max_members_of-append id (d ∷ cs) c = ground (arith, max_members_of-append id cs c)

chat_in_of_max_members :
    (id m : ℤ) (cs : List ChatRow) → max_members_of id cs ≡ some m → chat_in id cs ≡ true
chat_in_of_max_members id m [] h = ground arith
chat_in_of_max_members id m (c ∷ cs) h = ground (arith, chat_in_of_max_members id m cs)

chat_in_of_has_room :
    (id : ℤ) (cs : List ChatRow) (count : ℕ)
    → has_room count (max_members_of id cs) ≡ true
    → chat_in id cs ≡ true
chat_in_of_has_room id [] count h = ground arith
chat_in_of_has_room id (c ∷ cs) count h = ground (arith, chat_in_of_has_room id cs count)

-- A chat that is not there has no members.
no_members :
    (id : ℤ) (rows : List ChatUserRow)
    → ((login : String) → member id login rows ≡ false)
    → length (members_of id rows) ≡ 0
no_members id [] h = refl
no_members id (r ∷ rows) h = ground (
  arith,
  h r.user_login,
  ==_refl r.user_login,
  no_members id rows (λ login. ground (arith, h login)),
)

pub statement-keeps :
    (pg : Postgres) (P : Db → Type 0) {A : Type 0} (run : Sql A) (db : Db)
    → P (counted db)
    → P (run (counted db)).1
    → P (statement pg run db).1
statement-keeps pg P run db failed ran = elim (Bool-cases (pg.fault db.calls)) [
  | inl fault ↦ rw fault failed
  | inr healthy ↦ rw healthy ran
]

pub counted-IsWellFormed : {db : Db} → IsWellFormed db → IsWellFormed (counted db)
counted-IsWellFormed w = record {
  chat_bounded = w.chat_bounded;
  member_chat = w.member_chat;
  capacity = w.capacity;
  member_once = w.member_once;
}

module _ (db : Db) (w : IsWellFormed db) where
  open w use {chat_bounded, member_chat, capacity, member_once}

  pub fresh_chat : chat_in (pos (suc db.chat_seq)) db.chat ≡ false
  fresh_chat = elim (Bool-cases (chat_in (pos (suc db.chat_seq)) db.chat)) [
    | inl there ↦ absurd (omega (arith, chat_bounded (pos (suc db.chat_seq)) there))
    | inr gone ↦ gone
  ]

  pub fresh_members : length (members_of (pos (suc db.chat_seq)) db.chat_user) ≡ 0
  fresh_members = no_members _ db.chat_user λ login.
      elim (Bool-cases (member (pos (suc db.chat_seq)) login db.chat_user)) [
        | inl there ↦ ground (arith, fresh_chat, member_chat _ login there)
        | inr gone ↦ gone
      ]

  bounded_after :
      (max_members id : ℤ)
      → chat_in id (insert_chat max_members db).1.chat ≡ true
      → id ≤ℤ pos (suc db.chat_seq)
  bounded_after max_members id there = elim (Bool-cases (chat_in id db.chat)) [
    | inl old ↦ omega (arith, chat_bounded id old)
    | inr new ↦ ground (
      arith,
      any-append (λ (c : ChatRow). c.id == id) db.chat
          (record { id = pos (suc db.chat_seq); max_members = max_members } ∷ []),
      ==_iff (pos (suc db.chat_seq)) id,
    )
  ]

  capacity_after :
      (max_members id m : ℤ)
      → pos 0 ≤ℤ max_members
      → max_members_of id (insert_chat max_members db).1.chat ≡ some m
      → pos (length (members_of id db.chat_user)) ≤ℤ m
  capacity_after max_members id m h e = ground (
    arith,
    max_members_of-append id db.chat
        (record { id = pos (suc db.chat_seq); max_members = max_members }),
    capacity id m,
    fresh_members,
    ==_iff (pos (suc db.chat_seq)) id,
  )

  pub insert_chat-IsWellFormed :
      (max_members : ℤ) → pos 0 ≤ℤ max_members → IsWellFormed (insert_chat max_members db).1
  insert_chat-IsWellFormed max_members h = record {
    chat_bounded = bounded_after max_members;
    member_chat = λ id login there. rw any-append (ground (arith, member_chat id login there));
    capacity = λ id m. capacity_after max_members id m h;
    member_once = member_once;
  }

module _ (db : Db) (w : IsWellFormed db) (chat_id : ℤ) (login : String) where
  open w use {chat_bounded, member_chat, capacity, member_once}

  abbrev row : ChatUserRow
  row = record { chat_id = chat_id; user_login = login }

  abbrev joined : Db
  joined = record db { tables = record db.tables { chat_user = db.chat_user ++ row ∷ [] } }

  joined_capacity :
      (id m : ℤ)
      → has_room (length (members_of chat_id db.chat_user)) (max_members_of chat_id db.chat) ≡ true
      → max_members_of id db.chat ≡ some m
      → pos (length (members_of id joined.chat_user)) ≤ℤ m
  joined_capacity id m room e = ground (
    arith,
    select-append (in_chat id) db.chat_user (row ∷ []),
    length-append (members_of id db.chat_user) (select (in_chat id) (row ∷ [])),
    capacity id m e,
    ==_iff chat_id id,
  )

  joined_once :
      (id : ℤ) (l : String)
      → member chat_id login db.chat_user ≡ false
      → length (select (is_row id l) joined.chat_user) ≤ 1
  joined_once id l new = ground (
    arith,
    select-append (is_row id l) db.chat_user (row ∷ []),
    length-append (select (is_row id l) db.chat_user) (select (is_row id l) (row ∷ [])),
    length-select-of_any (is_row id l) db.chat_user,
    member_once id l,
    ==_iff chat_id id,
    ==_iff login l,
  )

  joined_chat :
      (id : ℤ) (l : String)
      → has_room (length (members_of chat_id db.chat_user)) (max_members_of chat_id db.chat) ≡ true
      → member id l joined.chat_user ≡ true
      → chat_in id db.chat ≡ true
  joined_chat id l room there = ground (
    arith,
    any-append (is_row id l) db.chat_user (row ∷ []),
    member_chat id l,
    ==_iff chat_id id,
    chat_in_of_has_room chat_id db.chat _ room,
  )

  pub insert_chat_user-IsWellFormed : IsWellFormed (insert_chat_user chat_id login db).1
  insert_chat_user-IsWellFormed =
      elim (Bool-cases
        (has_room (length (members_of chat_id db.chat_user)) (max_members_of chat_id db.chat))) [
          | inl room ↦ elim (Bool-cases (member chat_id login db.chat_user)) [
            | inl old ↦ rw (room, old) w
            | inr new ↦
                rw (room, new)
                  (record {
                    chat_bounded = chat_bounded;
                    member_chat = λ id l. joined_chat id l room;
                    capacity = λ id m. joined_capacity id m room;
                    member_once = λ id l. joined_once id l new;
                  })
          ]
          | inr full ↦ rw full w
        ]
