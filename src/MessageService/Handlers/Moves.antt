-- ===== src/MessageService/Handlers/Moves.antt =====
-- A relation between the states before and after, carried from the steps of the handlers to the
-- handling of every event.
use simply_chat.Base.{
  ℤ, pos, ◌≤ℤ◌, String, Bool, true, false, not, leb_ℤ, ◌||◌, ◌≡◌, refl, Option, none, some, List,
  Result, ok, err, Moves, bind-Moves, arith, ◌==◌, int_eq, string_eq, guard, or_raise, ◌>>=◌,
}
use simply_chat.Models.{
  Event, Incoming, EventChatPayload, EventAddUserToChatPayload, EventSetActiveChatPayload,
  EventSendMessagePayload, EventGetMessageHistoryPayload,
}
use simply_chat.Postgres.{Postgres}
use simply_chat.MessageStorage.Tables.{Db, Sql, counted}
use simply_chat.MessageStorage.Chats.{
  create_chat, add_user_to_chat, get_all_user_chats, chat_exists, is_chat_member,
}
use simply_chat.MessageStorage.Messages.{save_message}
use simply_chat.MessageStorage.History.{HistoryPageParams, get_message_history}
use simply_chat.MessageService.Members.{Redis}
use simply_chat.MessageService.FanOut.{Online, enrich_message_payload}
use simply_chat.MessageService.Handlers.{
  HandlerError, Action, on_db, send_to, send_waiting, or_report, reported, send_history_error,
  capacity_of, asked_page, answer_page, enriched_page, handle_event, handle_new_chat,
  handle_new_user_in_chat, handle_send_message, handle_get_message_history, answer_history,
  handle_new_active_chat, handle_all_user_chats, on_members, deliver_all, not_sent, bad_payload,
  bad_request, access_denied,
}

-- A relation that every step of a handler moves along.
pub record Kept (pg : Postgres) (redis : Redis) (R : Online → Online → Type 0) : Type 1 where
  pub same : (s : Online) → R s s
  pub trans : (a b c : Online) → R a b → R b c → R a c
  pub creates :
      (capacity : ℤ)
      → pos 0 ≤ℤ capacity
      → capacity ≤ℤ pos 250
      → Moves R (on_db (create_chat pg capacity))
  pub adds : (id : ℤ) (login : String) → Moves R (on_db (add_user_to_chat pg id login))
  pub saves : (msg : EventSendMessagePayload) → Moves R (on_db (save_message pg msg))
  pub reads : {A : Type 0} (m : Sql A) → ((db : Db) → (m db).1 ≡ counted db) → Moves R (on_db m)
  pub members : (chat_id : ℤ) → Moves R (on_members pg redis chat_id)
  pub sends : (login : String) (event : Event) → Moves R (send_to login event)
  pub waits : (login : String) (event : Event) → Moves R (send_waiting login event)
  pub delivers :
      (message : EventSendMessagePayload) (logins : List String)
      → Moves R (deliver_all pg redis message logins)

module _ (pg : Postgres) where
  chat_exists-counted : (id : ℤ) (db : Db) → (chat_exists pg id db).1 ≡ counted db
  unfolding chat_exists
  chat_exists-counted id db = ground arith

  is_chat_member-counted :
      (id : ℤ) (login : String) (db : Db) → (is_chat_member pg id login db).1 ≡ counted db
  unfolding is_chat_member
  is_chat_member-counted id login db = ground arith

  get_all_user_chats-counted :
      (login : String) (db : Db) → (get_all_user_chats pg login db).1 ≡ counted db
  unfolding get_all_user_chats
  get_all_user_chats-counted login db = ground arith

  get_message_history-counted :
      (params : HistoryPageParams) (db : Db) → (get_message_history pg params db).1 ≡ counted db
  unfolding get_message_history
  get_message_history-counted params db = ground arith

module _ (pg : Postgres) (redis : Redis) (R : Online → Online → Type 0) (k : Kept pg redis R) where
  then-Moves :
      {A B : Type 0} (m : Action A) (f : A → Action B)
      → Moves R m
      → ((a : A) → Moves R (f a))
      → Moves R (m >>= f)
  then-Moves m f p q = bind-Moves R k.trans m f p q

  reported-Moves :
      {A : Type 0} (login : String) (chat_id : ℤ) (message : HandlerError → String) (s : Online)
      (run : Result HandlerError A × Online)
      → R s run.1
      → R s (reported login chat_id message run).1
  unfolding send_history_error
  reported-Moves login chat_id message s (ok a, t) h = h
  reported-Moves login chat_id message s (err e, t) h = k.trans s t _ h (k.sends login _ t)

  or_report-Moves :
      {A : Type 0} (login : String) (chat_id : ℤ) (message : HandlerError → String) (m : Action A)
      → Moves R m
      → Moves R (or_report login chat_id message m)
  or_report-Moves login chat_id message m p s = reported-Moves login chat_id message s (m s) (p s)

  guard-Moves : (b : Bool) (e : HandlerError) → Moves R (guard b e)
  guard-Moves true e s = k.same s
  guard-Moves false e s = k.same s

  or_raise-Moves : {A : Type 0} (e : HandlerError) (o : Option A) → Moves R (or_raise e o)
  or_raise-Moves e none s = k.same s
  or_raise-Moves e (some a) s = k.same s

  -- A chat type's capacity is a limit that the tables allow.
  capacity_ok :
      (chat_type : String) (capacity : ℤ)
      → capacity_of chat_type ≡ some capacity
      → (pos 0 ≤ℤ capacity) × (capacity ≤ℤ pos 250)
  capacity_ok chat_type capacity h = ground arith

  or_raise_with :
      {A B : Type 0} (e : HandlerError) (o : Option A) (f : A → Action B)
      → ((a : A) → o ≡ some a → Moves R (f a))
      → Moves R (or_raise e o >>= f)
  or_raise_with e none f p s = k.same s
  or_raise_with e (some a) f p s = p a refl s

  handle_new_chat-Moves :
      (request : Option EventChatPayload) (login : String)
      → Moves R (handle_new_chat pg redis request login)
  unfolding handle_new_chat
  handle_new_chat-Moves request login = or_raise_with bad_payload request _ λ payload _.
      or_raise_with bad_request (capacity_of payload.chat_type) _ λ capacity known.
        let (low, high) = capacity_ok payload.chat_type capacity known in
        then-Moves (on_db (create_chat pg capacity)) _ (k.creates capacity low high) λ id.
          then-Moves (on_db (add_user_to_chat pg id login)) _ (k.adds id login) λ _. k.sends login _

  handle_new_user_in_chat-Moves :
      (request : Option EventAddUserToChatPayload)
      → Moves R (handle_new_user_in_chat pg redis request)
  unfolding handle_new_user_in_chat
  handle_new_user_in_chat-Moves request = or_raise_with bad_payload request _ λ payload _.
      then-Moves (on_db (add_user_to_chat pg payload.chat_id payload.user_login)) _
        (k.adds payload.chat_id payload.user_login) λ _. k.sends payload.user_login _

  handle_new_active_chat-Moves :
      (request : Option EventSetActiveChatPayload) → Moves R (handle_new_active_chat request)
  unfolding handle_new_active_chat
  handle_new_active_chat-Moves request =
      or_raise_with bad_payload request _ λ payload _. guard-Moves _ bad_request

  handle_send_message-Moves :
      (request : Option EventSendMessagePayload) → Moves R (handle_send_message pg redis request)
  unfolding handle_send_message
  handle_send_message-Moves request = or_raise_with bad_payload request _ λ payload _.
      then-Moves (on_db (save_message pg payload)) _ (k.saves payload) λ saved.
        then-Moves (on_members pg redis payload.chat_id) _ (k.members payload.chat_id)
          λ members. k.delivers (enrich_message_payload saved) members

  handle_all_user_chats-Moves : (login : String) → Moves R (handle_all_user_chats pg redis login)
  unfolding handle_all_user_chats
  handle_all_user_chats-Moves login =
      then-Moves (on_db (get_all_user_chats pg login)) _
        (k.reads (get_all_user_chats pg login) (get_all_user_chats-counted pg login))
        λ chats. k.waits login _

  -- A reported step, and what follows it.
  report-Moves :
      {A B : Type 0} (login : String) (chat_id : ℤ) (message : HandlerError → String) (m : Action A)
      (f : A → Action B)
      → Moves R m
      → ((a : A) → Moves R (f a))
      → Moves R (or_report login chat_id message m >>= f)
  report-Moves login chat_id message m f p q =
      then-Moves (or_report login chat_id message m) f (or_report-Moves login chat_id message m p) q

  page-Moves :
      (payload : EventGetMessageHistoryPayload) (login : String)
      → Moves R (answer_page pg redis payload login)
  page-Moves payload login =
      report-Moves login payload.chat_id (λ _. "failed to load message history")
        (on_db (get_message_history pg (asked_page payload))) _
        (k.reads (get_message_history pg (asked_page payload))
          (get_message_history-counted pg (asked_page payload)))
        λ page.
          or_report-Moves login payload.chat_id not_sent
            (send_to login (Event.message_history (enriched_page page))) (k.sends login _)

  answer_history-Moves :
      (payload : EventGetMessageHistoryPayload) (login : String)
      → Moves R (answer_history pg redis payload login)
  unfolding answer_history
  answer_history-Moves payload login =
      let id = payload.chat_id in
      let positive = not (leb_ℤ id (pos 0)) in
      let own = payload.login == "" || payload.login == login in
      report-Moves login id (λ _. "invalid chat id") (guard positive bad_request) _
        (guard-Moves positive bad_request)
        λ _.
          report-Moves login id (λ _. "login mismatch") (guard own bad_request) _
            (guard-Moves own bad_request)
            λ _.
              report-Moves login id (λ _. "failed to check chat") (on_db (chat_exists pg id)) _
                (k.reads (chat_exists pg id) (chat_exists-counted pg id))
                λ exists.
                  report-Moves login id (λ _. "chat doesn't exist") (guard exists bad_request) _
                    (guard-Moves exists bad_request)
                    λ _.
                      report-Moves login id (λ _. "failed to check chat membership")
                        (on_db (is_chat_member pg id login)) _
                        (k.reads (is_chat_member pg id login) (is_chat_member-counted pg id login))
                        λ is_member.
                          report-Moves login id (λ _. "access denied")
                            (guard is_member access_denied) _ (guard-Moves is_member access_denied)
                            λ _. page-Moves payload login

  handle_get_message_history-Moves :
      (request : Option EventGetMessageHistoryPayload) (login : String)
      → Moves R (handle_get_message_history pg redis request login)
  unfolding handle_get_message_history
  handle_get_message_history-Moves request login =
      report-Moves login (pos 0) (λ _. "invalid history request payload")
        (or_raise bad_payload request) _ (or_raise-Moves bad_payload request)
        λ payload. answer_history-Moves payload login

  -- So every event moves the state along the relation.
  pub handle_event-Moves :
      (login : String) (event : Incoming) → Moves R (handle_event pg redis login event)
  unfolding handle_event
  handle_event-Moves login (Incoming.get_message_history request) =
      handle_get_message_history-Moves request login
  handle_event-Moves login (Incoming.set_active_chat request) = handle_new_active_chat-Moves request
  handle_event-Moves login (Incoming.send_message request) = handle_send_message-Moves request
  handle_event-Moves login (Incoming.add_user_to_chat request) =
      handle_new_user_in_chat-Moves request
  handle_event-Moves login (Incoming.new_chat request) = handle_new_chat-Moves request login
  handle_event-Moves login Incoming.all_user_chats = handle_all_user_chats-Moves login
  handle_event-Moves login Incoming.unknown = λ s. k.same s
