-- ===== src/Tests/Events.antt =====
-- The events of a client, and its connections.
use simply_chat.Base.{
  arith, ℕ, ◌≤◌, pos, String, true, false, ◌≡◌, none, some, List, [], ◌∷◌, length, select, contains,
  All, string_eq, Distinct, nat_eq, ok, refl,
}
use simply_chat.Models.{Incoming, EventChatPayload, EventGetMessageHistoryPayload}
use simply_chat.MessageStorage.Chats.{members_of, member, is_row, chat_in}
use simply_chat.MessageStorage.Operations.{
  Operation, creates_chat, adds_user, operate_all, empty_db, storage-IsWellFormed,
}
use simply_chat.MessageService.Members.{MembersCache}
use simply_chat.MessageService.Members.{get_chat_members}
use simply_chat.MessageService.FanOut.{Online}
use simply_chat.MessageService.Handlers.{handle_new_user_in_chat}
use simply_chat.MessageService.Handlers.Stale.{handle_new_user_in_chat-stale}
use simply_chat.MessageService.Handlers.Sending.{Sending, handle_send_message-Sending}
use simply_chat.MessageService.Handlers.{
  handle_send_message, handle_get_message_history, handle_new_chat,
}
use simply_chat.MessageService.Handlers.Writes.{handle_events, fresh, handle_events-bounded}
use simply_chat.MessageService.Handlers.Chats.{NewChat, handle_new_chat-NewChat}
use simply_chat.MessageService.Handlers.History.{
  HistoryAnswer, handle_get_message_history-HistoryAnswer,
}
use simply_chat.MessageService.Sessions.{
  Sessions, Reachable, start, after, connects, init_connection,
}
use simply_chat.MessageService.Sessions.Storage.{idents}
use simply_chat.MessageService.Sessions.Invariant.{nobody, reachable-sessions}
use simply_chat.Tests.Fixtures.{healthy, failing_at}
use simply_chat.Tests.Messages.{redis, clients, world, payload}

abbrev cache : MembersCache
cache = record { lists = λ _. []; commands = 0 }

abbrev new_chat : EventChatPayload
new_chat = record { chat_id = pos 0; chat_type = "private" }

-- Three users want to be in a chat of two.
abbrev events : List (String × Incoming)
events =
    ("ann", Incoming.new_chat (some new_chat))
    ∷ ("ann", Incoming.add_user_to_chat (some (record { chat_id = pos 1; user_login = "bob" })))
    ∷ ("ann", Incoming.add_user_to_chat (some (record { chat_id = pos 1; user_login = "eve" })))
    ∷ []

events_example :
    let db = (handle_events healthy redis events (fresh cache clients)).sources.db in
    (length (members_of (pos 1) db.chat_user) ≤ 250)
    × (length (select (is_row (pos 1) "bob") db.chat_user) ≤ 1)
    × (member (pos 1) "bob" db.chat_user ≡ true → chat_in (pos 1) db.chat ≡ true)
events_example = handle_events-bounded healthy redis events cache clients (pos 1) "bob"

abbrev written : List Operation
written = creates_chat (pos 2) ∷ adds_user (pos 1) "ann" ∷ []

abbrev with_chat : Online
with_chat = record world.online {
  sources = record world.online.sources { db = operate_all healthy written empty_db };
}

-- The second statement fails: the chat is there, and nobody is in it.
new_chat_example :
    let (r, t) = handle_new_chat (failing_at 3) redis (some new_chat) "ann" with_chat in
    NewChat new_chat "ann" with_chat t r
new_chat_example =
    handle_new_chat-NewChat (failing_at 3) redis new_chat "ann" with_chat
      (storage-IsWellFormed healthy written (omega arith, (tt, tt)))

abbrev asks : EventGetMessageHistoryPayload
asks = record { login = "bob"; chat_id = pos 1; limit = pos 500; before = none }

history_example :
    let (r, t) = handle_get_message_history healthy redis (some asks) "bob" world.online in
    HistoryAnswer healthy asks "bob" world.online t r
history_example = handle_get_message_history-HistoryAnswer healthy asks "bob" world.online redis

abbrev one_connected : Sessions
one_connected = init_connection "ann" true (nobody world.online)

-- Ann connects, and connects again.
twice : Reachable healthy redis (nobody world.online) (init_connection "ann" true one_connected)
twice = after (after start (connects "ann" true)) (connects "ann" true)

sessions_example :
    let storage = (init_connection "ann" true one_connected).online.clients in
    Distinct (λ (i : String × ℕ). i.0) (idents storage)
    × Distinct (λ (i : String × ℕ). i.1) (idents storage)
    × Distinct (λ (n : ℕ). n) storage.closed
    × All (λ (i : String × ℕ). contains i.1 storage.closed ≡ false) (idents storage)
sessions_example =
    reachable-sessions healthy redis world.online (init_connection "ann" true one_connected) twice

send_message_example :
    let (r, t) = handle_send_message healthy redis (some payload) world.online in
    Sending healthy redis payload world.online t r
send_message_example = handle_send_message-Sending healthy redis payload world.online

-- Ann alone is in the cached list when bob is added.
abbrev cached : Online
cached = record world.online {
  sources = record world.online.sources {
    cache = record { lists = λ _. "ann" ∷ []; commands = 0 };
  };
}

stale_example :
    let t =
      (handle_new_user_in_chat healthy redis
        (some (record { chat_id = pos 1; user_login = "bob" }))
        cached).1 in
    (members : List String) × ((get_chat_members healthy redis (pos 1) t.sources).0 ≡ ok members)
    × ((m : String) → contains m members ≡ contains m ("ann" ∷ []))
stale_example =
    handle_new_user_in_chat-stale healthy redis (record { chat_id = pos 1; user_login = "bob" })
      cached "ann" (λ _. refl) (λ _. refl) (λ _ _ _. refl) refl
