-- ===== src/MessageService/Handlers/Writes.antt =====
-- What any sequence of events does to the chats.
use simply_chat.Base.{
  ◌≤◌, ℤ, pos, ◌≤ℤ◌, String, true, false, ◌≡◌, refl, Option, none, some, List, [], ◌∷◌, ◌++◌,
  length, select, All, Moves, Option-cases, Bool-cases, inl, inr, arith, ==_refl, int_eq, string_eq,
}
use simply_chat.Models.{Event, Incoming, EventSendMessagePayload}
use simply_chat.Postgres.{Postgres}
use simply_chat.MessageStorage.Tables.{Db, Sql, ChatRow, ChatUserRow, counted}
use simply_chat.MessageStorage.Chats.{
  create_chat, add_user_to_chat, members_of, max_members_of, member, chat_in, is_row,
}
use simply_chat.MessageStorage.Messages.{save_message}
use simply_chat.MessageStorage.Invariant.{IsWellFormed, counted-IsWellFormed}
use simply_chat.MessageStorage.Operations.{
  operate, operate-IsWellFormed, creates_chat, adds_user, saves_message, empty_db,
  empty_db-IsWellFormed, save_message-SameChats,
}
use simply_chat.MessageService.Clients.{Client, ClientStorage, get_client}
use simply_chat.MessageService.Members.{Redis, MembersCache, get_chat_members-db}
use simply_chat.MessageService.FanOut.{Online}
use simply_chat.MessageService.Handlers.Moves.{Kept, handle_event-Moves}
use simply_chat.MessageService.Handlers.{
  on_db, send_to, send_waiting, hand_found, hand_waiting, handle_event, on_members,
}

-- The tables are well formed, and no chat is meant for more than 250 members.
pub record Fits (db : Db) : Type 0 where
  pub well : IsWellFormed db
  pub sized : All (λ (c : ChatRow). c.max_members ≤ℤ pos 250) db.chat

abbrev Keeps : Online → Online → Type 0
Keeps s t = Fits s.sources.db → Fits t.sources.db

Keeps-trans : (a b c : Online) → Keeps a b → Keeps b c → Keeps a c
Keeps-trans a b c p q h = q (p h)

-- A statement on the database keeps the rows fitting.
abbrev KeepsFits : {A : Type 0} → Sql A → Type 0
KeepsFits m = (db : Db) → Fits db → Fits (m db).1

on_db-Keeps : {A : Type 0} (m : Sql A) → KeepsFits m → Moves Keeps (on_db m)
on_db-Keeps m p s h = p s.sources.db h

hand_found-sources :
    (login : String) (event : Event) (found : Option Client) (s : Online)
    → ((hand_found login event found s).1.sources ≡ s.sources)
      × ((hand_waiting login event found s).1.sources ≡ s.sources)
hand_found-sources login event none s = (refl, refl)
hand_found-sources login event (some c) s = ground arith

send_to-sources :
    (login : String) (event : Event) (s : Online) → (send_to login event s).1.sources ≡ s.sources
unfolding send_to
send_to-sources login event s = (hand_found-sources login event (get_client login s.clients) s).0

same-Keeps : (s t : Online) → t.sources ≡ s.sources → Keeps s t
same-Keeps s t e h = rw e h

send_to-Keeps : (login : String) (event : Event) → Moves Keeps (send_to login event)
send_to-Keeps login event s = same-Keeps s (send_to login event s).1 (send_to-sources login event s)

send_waiting-Keeps : (login : String) (event : Event) → Moves Keeps (send_waiting login event)
unfolding send_waiting
send_waiting-Keeps login event s =
    same-Keeps s (send_waiting login event s).1
      (hand_found-sources login event (get_client login s.clients) s).1

-- A read counts a statement, and no more.
read-Fits : {A : Type 0} (m : Sql A) → ((db : Db) → (m db).1 ≡ counted db) → KeepsFits m
read-Fits m e db h = rw (e db) (record { well = counted-IsWellFormed h.well; sized = h.sized })

read_db-Keeps :
    {A : Type 0} (m : Sql A) → ((db : Db) → (m db).1 ≡ counted db) → Moves Keeps (on_db m)
read_db-Keeps m e = on_db-Keeps m (read-Fits m e)

module _ (pg : Postgres) where
  sized-append :
      (rows : List ChatRow) (row : ChatRow)
      → All (λ (c : ChatRow). c.max_members ≤ℤ pos 250) rows
      → row.max_members ≤ℤ pos 250
      → All (λ (c : ChatRow). c.max_members ≤ℤ pos 250) (rows ++ row ∷ [])
  sized-append [] row h k = (k, tt)
  sized-append (r ∷ rows) row h k = (h.0, sized-append rows row h.1 k)

  create_chat-Fits :
      (capacity : ℤ) → pos 0 ≤ℤ capacity → capacity ≤ℤ pos 250 → KeepsFits (create_chat pg capacity)
  unfolding create_chat operate
  create_chat-Fits capacity low high db h = record {
    well = operate-IsWellFormed pg (creates_chat capacity) db low h.well;
    sized = elim (Bool-cases (pg.fault db.calls)) [
      | inl fault ↦ rw fault h.sized
      | inr run ↦ rw run (sized-append db.chat _ h.sized high)
    ];
  }

  add_user_to_chat-Fits : (id : ℤ) (login : String) → KeepsFits (add_user_to_chat pg id login)
  unfolding add_user_to_chat operate
  add_user_to_chat-Fits id login db h = record {
    well = operate-IsWellFormed pg (adds_user id login) db tt h.well;
    sized = rw (add_user-chat id login db) h.sized;
  }
    where
      add_user-chat :
          (id : ℤ) (login : String) (db : Db) → (add_user_to_chat pg id login db).1.chat ≡ db.chat
      add_user-chat id login db = ground arith

  save_message-Fits : (msg : EventSendMessagePayload) → KeepsFits (save_message pg msg)
  unfolding operate
  save_message-Fits msg db h = record {
    well = operate-IsWellFormed pg (saves_message msg) db tt h.well;
    sized = rw (save_message-SameChats pg msg db).chat h.sized;
  }

module _ (pg : Postgres) (redis : Redis) where
  on_members-Keeps : (chat_id : ℤ) → Moves Keeps (on_members pg redis chat_id)
  on_members-Keeps chat_id s h = elim (get_chat_members-db pg redis chat_id s.sources) [
    | inl same ↦ rw same h
    | inr one ↦ rw one (record { well = counted-IsWellFormed h.well; sized = h.sized })
  ]

  Kept-Keeps : Kept pg redis Keeps
  Kept-Keeps = record {
    same = λ s h. h;
    trans = Keeps-trans;
    creates = λ capacity low high.
        on_db-Keeps (create_chat pg capacity) (create_chat-Fits pg capacity low high);
    adds =
        λ id login. on_db-Keeps (add_user_to_chat pg id login) (add_user_to_chat-Fits pg id login);
    saves = λ msg. on_db-Keeps (save_message pg msg) (save_message-Fits pg msg);
    reads = λ m counts. read_db-Keeps m counts;
    members = on_members-Keeps;
    sends = send_to-Keeps;
    waits = send_waiting-Keeps;
    delivers = λ message logins s h. h;
  }

  -- Events one after another, each of a login; what a handler returns is logged only.
  pub handle_events : List (String × Incoming) → Online → Online
  handle_events [] s = s
  handle_events ((login, event) ∷ events) s =
      handle_events events (handle_event pg redis login event s).1

  handle_events-Fits :
      (events : List (String × Incoming)) (s : Online)
      → Fits s.sources.db
      → Fits (handle_events events s).sources.db
  unfolding handle_events
  handle_events-Fits [] s h = h
  handle_events-Fits ((login, event) ∷ events) s h =
      handle_events-Fits events (handle_event pg redis login event s).1
        (handle_event-Moves pg redis Keeps Kept-Keeps login event s h)

sized-max :
    (id m : ℤ) (rows : List ChatRow)
    → All (λ (c : ChatRow). c.max_members ≤ℤ pos 250) rows
    → max_members_of id rows ≡ some m
    → m ≤ℤ pos 250
sized-max id m [] h e = absurd (ground arith)
sized-max id m (c ∷ rows) h e = ground (arith, sized-max id m rows h.1, h.0)

unknown_chat :
    (id : ℤ) (rows : List ChatRow) → max_members_of id rows ≡ none → chat_in id rows ≡ false
unknown_chat id [] e = refl
unknown_chat id (c ∷ rows) e = ground (arith, unknown_chat id rows)

no_members :
    (id : ℤ) (rows : List ChatUserRow)
    → ((login : String) → member id login rows ≡ false)
    → length (members_of id rows) ≡ 0
no_members id [] h = refl
no_members id (u ∷ rows) h = ground (
  arith,
  h u.user_login,
  ==_refl u.user_login,
  no_members id rows (λ login. ground (arith, h login)),
)

Fits-members : (db : Db) (id : ℤ) → Fits db → length (members_of id db.chat_user) ≤ 250
Fits-members db id h = elim (Option-cases (max_members_of id db.chat)) [
  | inr (m, known) ↦
      let within = h.well.capacity id m known in
      let small = sized-max id m db.chat h.sized known in omega (arith, within, small)
  | inl missing ↦ omega (
    arith,
    no_members id db.chat_user λ login. elim (Bool-cases (member id login db.chat_user)) [
      | inr no_member ↦ no_member
      | inl there ↦
          absurd
            (ground (arith, h.well.member_chat id login there, unknown_chat id db.chat missing))
    ],
  )
]

empty_db-Fits : Fits empty_db
empty_db-Fits = record { well = empty_db-IsWellFormed; sized = tt }

abbrev pub fresh : MembersCache → ClientStorage → Online
fresh cache clients = record {
  sources = record { db = empty_db; cache = cache };
  clients = clients;
}

-- From empty tables, after any events from any logins, however their payloads decode and whichever
-- statements and commands fail: no chat has more than 250 members, no user is in a chat twice, and
-- whoever is in a chat is in one that exists.
pub handle_events-bounded :
    (pg : Postgres) (redis : Redis) (events : List (String × Incoming)) (cache : MembersCache)
    (clients : ClientStorage) (id : ℤ) (login : String)
    → let db = (handle_events pg redis events (fresh cache clients)).sources.db in
      (length (members_of id db.chat_user) ≤ 250)
      × (length (select (is_row id login) db.chat_user) ≤ 1)
      × (member id login db.chat_user ≡ true → chat_in id db.chat ≡ true)
handle_events-bounded pg redis events cache clients id login =
    let db = (handle_events pg redis events (fresh cache clients)).sources.db in
    let fits = handle_events-Fits pg redis events (fresh cache clients) empty_db-Fits in
    (Fits-members db id fits, fits.well.member_once id login, fits.well.member_chat id login)
