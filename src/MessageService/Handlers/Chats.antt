-- ===== src/MessageService/Handlers/Chats.antt =====
-- What the creation of a chat, and the addition of a user, lead to.
use simply_chat.Base.{
  suc, ℤ, pos, List, String, ◌≡◌, refl, ap, ◌∙◌, Option, none, some, [], ◌∷◌, ◌++◌, Result, ok, err,
  Result-cases, Option-cases, Bool-cases, inl, inr, ◌⊎◌, arith, false, length, select-append, ◌==◌,
  ==_iff, ==_refl, int_eq, string_eq,
}
use simply_chat.Models.{Event, EventChatPayload}
use simply_chat.Postgres.{Postgres}
use simply_chat.MessageStorage.Tables.{
  statement_failed, Db, Tables, ChatRow, ChatUserRow, StorageError,
}
use simply_chat.MessageStorage.Chats.{create_chat, add_user_to_chat, chat_in, in_chat, members_of}
use simply_chat.MessageStorage.Invariant.{IsWellFormed, fresh_chat, fresh_members}
use simply_chat.MessageService.Clients.{Client, get_client}
use simply_chat.MessageService.Members.{Redis}
use simply_chat.MessageService.FanOut.{Online}
use simply_chat.MessageService.Handlers.{
  HandlerError, send_to, hand_found, capacity_of, handle_new_chat, storage_failed, bad_request,
}

abbrev tables_of : Online → Tables
tables_of s = s.sources.db.tables

abbrev with_chat : ChatRow → Tables → Tables
with_chat row t = record t { chat = t.chat ++ row ∷ [] }

abbrev with_member : ChatUserRow → Tables → Tables
with_member row t = record t { chat_user = t.chat_user ++ row ∷ [] }

-- How many places a chat of this type has.
abbrev pub Places : String → ℤ → Type 0
Places chat_type places =
    ((chat_type ≡ "public") × (places ≡ pos 250)) ⊎ ((chat_type ≡ "private") × (places ≡ pos 2))

capacity_of-Places :
    (chat_type : String) (places : ℤ)
    → capacity_of chat_type ≡ some places
    → Places chat_type places
capacity_of-Places chat_type places h = elim (Bool-cases (chat_type == "public")) [
  | inl public ↦ inl ((==_iff chat_type "public").0 public, ground (arith, h, public))
  | inr other ↦ elim (Bool-cases (chat_type == "private")) [
    | inl private ↦ inr ((==_iff chat_type "private").0 private, ground (arith, h, other, private))
    | inr unknown ↦ absurd (ground (arith, h, other, unknown))
  ]
]

-- No chat has the id, and nobody is in it.
abbrev pub IsNew : ℤ → Tables → Type 0
IsNew id t = (chat_in id t.chat ≡ false) × (members_of id t.chat_user ≡ [])

none_of : (rows : List ChatUserRow) → length rows ≡ 0 → rows ≡ []
none_of [] h = refl
none_of (r ∷ rows) h = absurd (omega (arith, h))

one_member :
    (id : ℤ) (login : String) (rows : List ChatUserRow)
    → members_of id rows ≡ []
    → members_of id (rows ++ record { chat_id = id; user_login = login } ∷ [])
      ≡ record { chat_id = id; user_login = login } ∷ []
one_member id login rows h =
    select-append (in_chat id) rows (record { chat_id = id; user_login = login } ∷ [])
    ∙ rw (h, ==_refl id) refl

module _ (pg : Postgres) where
  create_chat-cases :
      (capacity : ℤ) (db : Db)
      → IsWellFormed db
      → ((id : ℤ) × ((create_chat pg capacity db).0 ≡ ok id)
          × IsNew id db.tables
          × ((create_chat pg capacity db).1.tables
              ≡ with_chat (record { id = id; max_members = capacity }) db.tables))
        ⊎ ((e : StorageError) × ((create_chat pg capacity db).0 ≡ err e)
            × ((create_chat pg capacity db).1.tables ≡ db.tables))
  unfolding create_chat
  create_chat-cases capacity db w = elim (Bool-cases (pg.fault db.calls)) [
    | inl fault ↦ inr (statement_failed, ground arith, ground arith)
    | inr run ↦ inl (
      pos (suc db.chat_seq),
      ground arith,
      (fresh_chat db w, none_of _ (fresh_members db w)),
      ground arith,
    )
  ]

  add_user-cases :
      (id : ℤ) (login : String) (db : Db)
      → (((add_user_to_chat pg id login db).0 ≡ ok tt)
          × ((add_user_to_chat pg id login db).1.tables
              ≡ with_member (record { chat_id = id; user_login = login }) db.tables))
        ⊎ ((e : StorageError) × ((add_user_to_chat pg id login db).0 ≡ err e)
            × ((add_user_to_chat pg id login db).1.tables ≡ db.tables))
  unfolding add_user_to_chat
  add_user-cases id login db = elim (Result-cases (add_user_to_chat pg id login db).0) [
    | inl (_, done) ↦ inl (done, ground arith)
    | inr (e, failed) ↦ inr (e, failed, ground arith)
  ]

hand_found-tables :
    (login : String) (event : Event) (found : Option Client) (s : Online)
    → (hand_found login event found s).1.sources ≡ s.sources
hand_found-tables login event none s = refl
hand_found-tables login event (some c) s = ground arith

pub send_to-tables :
    (login : String) (event : Event) (s : Online) → (send_to login event s).1.sources ≡ s.sources
unfolding send_to
send_to-tables login event s = hand_found-tables login event (get_client login s.clients) s

-- How the creation of a chat ends: with the result `r` and the state `t`.
pub data NewChat (payload : EventChatPayload) (login : String) (s t : Online)
    : Result HandlerError (Unit {0}) → Type 0 where
  -- a new chat is there with the places of its type, and the user is its one member; the client
  -- may not have been told
  created :
      (id places : ℤ) {r : Result HandlerError (Unit {0})}
      → Places payload.chat_type places
      → IsNew id (tables_of s)
      → tables_of t
        ≡ with_member
            (record { chat_id = id; user_login = login })
            (with_chat (record { id = id; max_members = places }) (tables_of s))
      → members_of id (tables_of t).chat_user ≡ record { chat_id = id; user_login = login } ∷ []
      → NewChat payload login s t r
  -- nothing is stored
  refused : (e : HandlerError) → tables_of t ≡ tables_of s → NewChat payload login s t (err e)
  -- a new chat is there, and nobody is in it
  left_empty :
      (id places : ℤ)
      → Places payload.chat_type places
      → IsNew id (tables_of s)
      → tables_of t ≡ with_chat (record { id = id; max_members = places }) (tables_of s)
      → members_of id (tables_of t).chat_user ≡ []
      → NewChat payload login s t (err storage_failed)

module _ (pg : Postgres) (redis : Redis) where
  -- Over tables that are well formed, a request for a new chat ends in one of three ways. A chat with a new
  -- id is created, with 250 places where its type is public and 2 where it is private, and the user
  -- is its one member; or nothing is stored; or such a chat is stored and stays empty, since it is
  -- not created and joined in one transaction.
  pub handle_new_chat-NewChat :
      (payload : EventChatPayload) (login : String) (s : Online)
      → IsWellFormed s.sources.db
      → let (r, t) = handle_new_chat pg redis (some payload) login s in NewChat payload login s t r
  unfolding handle_new_chat
  handle_new_chat-NewChat payload login s w = elim (Option-cases (capacity_of payload.chat_type)) [
    | inl unknown ↦ rw unknown (refused bad_request refl)
    | inr (places, known) ↦ elim (create_chat-cases pg places s.sources.db w) [
      | inr (e, failed, same) ↦ rw (known, failed) (refused storage_failed same)
      | inl (id, made, new, rows) ↦
          let of = capacity_of-Places payload.chat_type places known in
          elim (add_user-cases pg id login (create_chat pg places s.sources.db).1) [
            | inr (e, failed, same) ↦
                let all = same ∙ rows in
                rw (known, made, failed)
                  (left_empty id places of new all
                    (ap (λ u. members_of id u.chat_user) all ∙ new.1))
            | inl (joined, more) ↦
                let all =
                  ap (λ sources. sources.db.tables) (send_to-tables login _ _)
                  ∙ more
                  ∙ ap (with_member (record { chat_id = id; user_login = login })) rows in
                rw (known, made, joined)
                  (created id places of new all (
                    ap (λ u. members_of id u.chat_user) all
                    ∙ one_member id login (tables_of s).chat_user new.1))
          ]
    ]
  ]
