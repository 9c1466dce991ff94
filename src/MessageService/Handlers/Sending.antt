-- ===== src/MessageService/Handlers/Sending.antt =====
-- What becomes of a text message that a client sends.
use simply_chat.Base.{
  String, true, ◌≡◌, refl, sym, ◌⊎◌, inl, inr, some, List, [], ◌∷◌, ◌++◌, Result, ok, err, Distinct,
  Result-cases, arith,
}
use simply_chat.Models.{EventSendMessagePayload}
use simply_chat.Postgres.{Postgres}
use simply_chat.MessageStorage.Tables.{Db, Tables, MessageRow, StorageError}
use simply_chat.MessageStorage.Chats.{chat_in}
use simply_chat.MessageStorage.Messages.{save_message, insert_message}
use simply_chat.MessageService.Clients.{get_client}
use simply_chat.MessageService.Members.{Redis, Sources, get_chat_members, get_chat_members-tables}
use simply_chat.MessageService.FanOut.{
  Online, enrich_message_payload, deliver, after, deliver-after,
}
use simply_chat.MessageService.FanOut.Stopped.{UpTo, deliver-UpTo}
use simply_chat.MessageService.Handlers.{
  HandlerError, handle_send_message, storage_failed, timed_out,
}

abbrev row_of : EventSendMessagePayload → MessageRow
row_of saved = record {
  id = saved.id;
  chat_id = saved.chat_id;
  sender_login = saved.sender_login;
  kind = "text";
  message_text = some saved.content;
  added_at = saved.created_at;
}

abbrev with_message : MessageRow → Tables → Tables
with_message row t = record t { message = t.message ++ row ∷ [] }

-- What was saved is what was sent, with an id and a time of the storage.
pub record IsSaved (payload saved : EventSendMessagePayload) (before after : Tables) : Type 0 where
  pub chat : saved.chat_id ≡ payload.chat_id
  pub sender : saved.sender_login ≡ payload.sender_login
  pub content : saved.content ≡ payload.content
  pub exists : chat_in payload.chat_id before.chat ≡ true
  pub rows : after ≡ with_message (row_of saved) before

save_message-cases :
    (pg : Postgres) (payload : EventSendMessagePayload) (db : Db)
    → ((saved : EventSendMessagePayload) × ((save_message pg payload db).0 ≡ ok saved)
        × IsSaved payload saved db.tables (save_message pg payload db).1.tables)
      ⊎ ((e : StorageError) × ((save_message pg payload db).0 ≡ err e)
          × ((save_message pg payload db).1.tables ≡ db.tables))
unfolding save_message insert_message
save_message-cases pg payload db = elim (Result-cases (save_message pg payload db).0) [
  | inr (e, failed) ↦ inr (e, failed, ground (arith, failed))
  | inl (saved, done) ↦ inl (
    saved,
    done,
    record {
      chat = ground (arith, done);
      sender = ground (arith, done);
      content = ground (arith, done);
      exists = ground (arith, done);
      rows = ground (arith, done);
    },
  )
]

-- How the sending of a message ends: with the result `r` and the state `t`, from the state `s`.
pub data Sending (pg : Postgres) (redis : Redis) (payload : EventSendMessagePayload) (s t : Online)
    : Result HandlerError (Unit {0}) → Type 0 where
  -- nothing is stored, and nobody gets anything
  rejected :
      t.sources.db.tables ≡ s.sources.db.tables
      → t.clients ≡ s.clients
      → Sending pg redis payload s t (err storage_failed)
  -- the message is stored, but its members are not known: nobody gets anything
  unknown_members :
      (saved : EventSendMessagePayload)
      → IsSaved payload saved s.sources.db.tables t.sources.db.tables
      → t.clients ≡ s.clients
      → Sending pg redis payload s t (err storage_failed)
  -- the message is stored, and the delivery stopped at a client that takes nothing: the members
  -- before it in the list have got it
  interrupted :
      (saved : EventSendMessagePayload) (members : List String) (sources : Sources)
      → IsSaved payload saved s.sources.db.tables t.sources.db.tables
      → sources.db.tables ≡ t.sources.db.tables
      → sources.cache ≡ s.sources.cache
      → (get_chat_members pg redis payload.chat_id sources).0 ≡ ok members
      → (Distinct (λ (m : String). m) members
          → UpTo (enrich_message_payload saved) members s.clients t.clients)
      → Sending pg redis payload s t (err timed_out)
  -- the message is stored, and everybody of the list who is online, but its sender, has got it
  delivered :
      (saved : EventSendMessagePayload) (members : List String) (sources : Sources)
      → IsSaved payload saved s.sources.db.tables t.sources.db.tables
      → sources.db.tables ≡ t.sources.db.tables
      → sources.cache ≡ s.sources.cache
      → (get_chat_members pg redis payload.chat_id sources).0 ≡ ok members
      → (Distinct (λ (m : String). m) members
          → (login : String)
          → get_client login t.clients
            ≡ after (enrich_message_payload saved) members login (get_client login s.clients))
      → Sending pg redis payload s t (ok tt)

module _ (pg : Postgres) (redis : Redis) where
  -- A text message is rejected, stored without being delivered to all, or delivered. But where it is rejected,
  -- it is stored once, as the last message. It goes to the members that getChatMembers gives after
  -- that, with the cache as it was: the list may be older than the tables. Where none of them is
  -- listed twice: delivered, each of them who is online but the
  -- sender has got it once, and nobody else anything; interrupted, this holds of the listed
  -- members before one of them in place of all; and where no list can be got, nobody gets anything.
  pub handle_send_message-Sending :
      (payload : EventSendMessagePayload) (s : Online)
      → let (r, t) = handle_send_message pg redis (some payload) s in Sending pg redis payload s t r
  unfolding handle_send_message
  handle_send_message-Sending payload s = elim (save_message-cases pg payload s.sources.db) [
    | inr (e, failed, same) ↦ rw failed (rejected same refl)
    | inl (saved, done, is_saved) ↦
        let sources : Sources = record s.sources {
          db = (save_message pg payload s.sources.db).1;
        } in
        let asked = get_chat_members pg redis payload.chat_id sources in
        let tables = get_chat_members-tables pg redis payload.chat_id sources in
        elim (Result-cases asked.0) [
          | inr (e, failed) ↦ rw (done, failed) (unknown_members saved (rw tables is_saved) refl)
          | inl (members, known) ↦
              elim (Result-cases (deliver (enrich_message_payload saved) members s.clients).0) [
                | inr (e, stopped) ↦
                    rw (done, known, stopped)
                      (interrupted saved members sources (rw tables is_saved) (sym tables) refl
                        known
                        (λ distinct.
                          deliver-UpTo (enrich_message_payload saved) members s.clients e distinct
                            stopped))
                | inl (_, all) ↦
                    rw (done, known, all)
                      (delivered saved members sources (rw tables is_saved) (sym tables) refl known
                        (λ distinct login.
                          deliver-after (enrich_message_payload saved) members s.clients login
                            distinct all))
              ]
        ]
  ]
