-- ===== src/MessageService/Handlers.antt =====
-- The handlers of the events that a client sends:
-- messageService/internal/service/messageService/messageService.go. An event comes decoded, and
-- one goes out as it is: encoding these payloads as JSON does not fail.
pub mod Moves
pub mod Writes
pub mod Chats
pub mod History
pub mod Sending
pub mod Stale
use simply_chat.Base.{
  ℕ, ℤ, pos, leb_ℤ, ltb_ℤ, String, Bool, not, ◌&&◌, ◌||◌, Option, none, some, List, [], ◌∷◌, map,
  Result, ok, err, Exec, or_raise, guard, map_err, pure, raise, ◌>>=◌, ◌>>◌, continue, ◌==◌,
  string_eq, if◌then◌else◌,
}
use simply_chat.Models.{
  AttachmentPayload, EventSendMessagePayload, EventSendMessageHistoryPayload, EventChatPayload,
  EventGetMessageHistoryPayload, EventSetActiveChatPayload, EventAddUserToChatPayload,
  EventMessageHistoryErrorPayload, Event, Incoming,
}
use simply_chat.Postgres.{Postgres}
use simply_chat.MessageStorage.Tables.{Sql}
use simply_chat.MessageStorage.Chats.{
  create_chat, add_user_to_chat, get_all_user_chats, chat_exists, is_chat_member,
}
use simply_chat.MessageStorage.Messages.{save_message}
use simply_chat.MessageStorage.History.{HistoryPageParams, get_message_history}
use simply_chat.MessageService.Clients.{Client, ClientStorage, get_client, hand_to}
use simply_chat.MessageService.Members.{Redis, get_chat_members}
use simply_chat.MessageService.FanOut.{Online, enrich_message_payload, deliver}

pub data HandlerError : Type 0 where
  bad_payload bad_request storage_failed access_denied offline timed_out : HandlerError

abbrev pub number_of_user_in_private_chat : ℤ
number_of_user_in_private_chat = pos 2

abbrev pub number_of_user_in_public_chat : ℤ
number_of_user_in_public_chat = pos 250

-- The most members of a chat of this type.
abbrev pub capacity_of : String → Option ℤ
capacity_of chat_type =
    if chat_type == "public"
    then some number_of_user_in_public_chat
    else if chat_type == "private"
    then some number_of_user_in_private_chat
    else none

abbrev pub default_history_page_limit : ℤ
default_history_page_limit = pos 50

abbrev pub max_history_page_limit : ℤ
max_history_page_limit = pos 100

unfoldable pub history_limit : ℤ → ℤ
history_limit asked =
    let limit = if leb_ℤ asked (pos 0) then default_history_page_limit else asked in
    if ltb_ℤ max_history_page_limit limit then max_history_page_limit else limit

abbrev pub enriched_page : EventSendMessageHistoryPayload → EventSendMessageHistoryPayload
enriched_page page = record page { items = map enrich_message_payload page.items }

abbrev pub asked_page : EventGetMessageHistoryPayload → HistoryPageParams
asked_page payload = record {
  chat_id = payload.chat_id;
  limit = history_limit payload.limit;
  before = payload.before;
}

abbrev pub Action : Type 0 → Type 0
Action A = Exec Online HandlerError A

abbrev pub on_db : {A : Type 0} → Sql A → Action A
on_db m s =
    let (r, db) = m s.sources.db in
    (map_err (λ _. storage_failed) r, record s { sources = record s.sources { db = db } })

abbrev pub hand_found : String → Event → Option Client → Action (Unit {0})
hand_found login event none s = (err offline, s)
hand_found login event (some c) s = if c.stalled then (err timed_out, s) else (
  ok tt,
  record s { clients = record s.clients { storage = hand_to login event s.clients.storage } },
)

-- Sent to the client of the login, unless its channel stays full for three seconds.
unfoldable pub send_to : String → Event → Action (Unit {0})
send_to login event s = hand_found login event (get_client login s.clients) s

-- Sent without a time limit: the handler waits until there is room.
abbrev pub hand_waiting : String → Event → Option Client → Action (Unit {0})
hand_waiting login event none s = (err offline, s)
hand_waiting login event (some c) s = (
  ok tt,
  record s { clients = record s.clients { storage = hand_to login event s.clients.storage } },
)

unfoldable pub send_waiting : String → Event → Action (Unit {0})
send_waiting login event s = hand_waiting login event (get_client login s.clients) s

unfoldable pub handle_new_active_chat : Option EventSetActiveChatPayload → Action (Unit {0})
handle_new_active_chat request = do
  payload ← or_raise bad_payload request
  guard (not (payload.login == "" || leb_ℤ payload.chat_id (pos 0))) bad_request

unfoldable pub send_history_error : String → ℤ → String → Action (Unit {0})
send_history_error login chat_id message =
    send_to login (Event.message_history_error (record { chat_id = chat_id; message = message }))

-- `fail`: the error is reported to the client, whatever becomes of the report, and returned.
abbrev pub reported :
    {A : Type 0}
    → String
    → ℤ
    → (HandlerError → String)
    → Result HandlerError A × Online
    → Result HandlerError A × Online
reported login chat_id message (ok a, s) = (ok a, s)
reported login chat_id message (err e, s) =
    (err e, (send_history_error login chat_id (message e) s).1)

abbrev pub or_report : {A : Type 0} → String → ℤ → (HandlerError → String) → Action A → Action A
or_report login chat_id message m s = reported login chat_id message (m s)

abbrev pub not_sent : HandlerError → String
not_sent offline = "client is offline"
not_sent _ = "history response timeout"

module _ (pg : Postgres) (redis : Redis) where
  -- A chat of the payload's type, with the user who asks for it as its first member.
  unfoldable pub handle_new_chat : Option EventChatPayload → String → Action (Unit {0})
  handle_new_chat request login = do
    payload ← or_raise bad_payload request
    capacity ← or_raise bad_request (capacity_of payload.chat_type)
    new_chat_id ← on_db (create_chat pg capacity)
    on_db (add_user_to_chat pg new_chat_id login)
    send_to login (Event.add_user_to_chat (record { chat_id = new_chat_id; user_login = login }))

  unfoldable pub handle_new_user_in_chat : Option EventAddUserToChatPayload → Action (Unit {0})
  handle_new_user_in_chat request = do
    payload ← or_raise bad_payload request
    on_db (add_user_to_chat pg payload.chat_id payload.user_login)
    send_to payload.user_login (Event.add_user_to_chat payload)

  -- The page, for a login that may see it.
  abbrev pub answer_page : EventGetMessageHistoryPayload → String → Action (Unit {0})
  answer_page payload login = do
    page ←
        or_report login payload.chat_id (λ _. "failed to load message history")
          (on_db (get_message_history pg (asked_page payload)))
    or_report login payload.chat_id not_sent
        (send_to login (Event.message_history (enriched_page page)))

  -- What is done for a request of the history that decodes.
  unfoldable pub answer_history : EventGetMessageHistoryPayload → String → Action (Unit {0})
  answer_history payload login = do
    let fail = λ (message : String). or_report {A = Unit} login payload.chat_id (λ _. message)
    let fail_test = λ (message : String). or_report {A = Bool} login payload.chat_id (λ _. message)
    fail "invalid chat id" (guard (not (leb_ℤ payload.chat_id (pos 0))) bad_request)
    fail "login mismatch" (guard (payload.login == "" || payload.login == login) bad_request)
    exists ← fail_test "failed to check chat" (on_db (chat_exists pg payload.chat_id))
    fail "chat doesn't exist" (guard exists bad_request)
    is_member ←
        fail_test "failed to check chat membership"
          (on_db (is_chat_member pg payload.chat_id login))
    fail "access denied" (guard is_member access_denied)
    answer_page payload login

  unfoldable pub handle_get_message_history :
      Option EventGetMessageHistoryPayload → String → Action (Unit {0})
  handle_get_message_history request login = do
    payload ←
        or_report login (pos 0) (λ _. "invalid history request payload")
          (or_raise bad_payload request)
    answer_history payload login

  abbrev pub on_members : ℤ → Action (List String)
  on_members chat_id s =
      let (r, sources) = get_chat_members pg redis chat_id s.sources in
      (map_err (λ _. storage_failed) r, record s { sources = sources })

  abbrev pub deliver_all : EventSendMessagePayload → List String → Action (Unit {0})
  deliver_all message members s =
      let (r, clients) = deliver message members s.clients in
      (map_err (λ _. timed_out) r, record s { clients = clients })

  unfoldable pub handle_send_message : Option EventSendMessagePayload → Action (Unit {0})
  handle_send_message request = do
    payload ← or_raise bad_payload request
    saved_message ← on_db (save_message pg payload)
    chat_members_logins ← on_members payload.chat_id
    deliver_all (enrich_message_payload saved_message) chat_members_logins

  unfoldable pub handle_all_user_chats : String → Action (Unit {0})
  handle_all_user_chats login = do
    chats ← on_db (get_all_user_chats pg login)
    send_waiting login (Event.all_user_chats chats)

  -- The switch of ReadMessage: an error of a handler is logged only.
  unfoldable pub handle_event : String → Incoming → Action (Unit {0})
  handle_event login (Incoming.get_message_history request) =
      handle_get_message_history request login
  handle_event login (Incoming.set_active_chat request) = handle_new_active_chat request
  handle_event login (Incoming.send_message request) = handle_send_message request
  handle_event login (Incoming.add_user_to_chat request) = handle_new_user_in_chat request
  handle_event login (Incoming.new_chat request) = handle_new_chat request login
  handle_event login Incoming.all_user_chats = handle_all_user_chats login
  handle_event login Incoming.unknown = pure tt
