-- ===== src/MessageService/Handlers/History.antt =====
-- What a request for the history leads to.
use simply_chat.Base.{
  ℕ, ◌+◌, ◌≤◌, ℤ, pos, negsuc, leb_ℤ, ltb, String, Bool, true, false, not, ◌||◌, ◌≡◌, refl, ap, sym,
  ◌∙◌, some, List, length, length-map, length-take, take, Result, ok, err, Result-cases,
  Option-cases, Bool-cases, inl, inr, arith, if◌then◌else◌, ◌==◌, string_eq,
}
use simply_chat.Models.{
  Event, EventGetMessageHistoryPayload, EventSendMessageHistoryPayload, EventSendMessagePayload,
}
use simply_chat.Postgres.{Postgres}
use simply_chat.MessageStorage.Tables.{arrived, Db, StorageError}
use simply_chat.MessageStorage.Chats.{chat_exists, is_chat_member, chat_in, member}
use simply_chat.MessageStorage.History.{
  HistoryPageParams, HistoryRow, get_message_history, page_limit, page_of_rows, history_rows,
  aggregate_history_rows,
}
use simply_chat.MessageStorage.Reversal.{length-reverse_history}
use simply_chat.MessageService.Clients.{get_client, hand_to}
use simply_chat.MessageService.Members.{Redis}
use simply_chat.MessageService.FanOut.{Online, enrich_message_payload}
use simply_chat.MessageService.Handlers.{
  HandlerError, send_to, reported, send_history_error, asked_page, answer_page, answer_history,
  enriched_page, history_limit, handle_get_message_history, not_sent, offline, timed_out,
  bad_request, access_denied, storage_failed,
}

history_limit-bound : (asked : ℤ) → page_limit (history_limit asked) ≤ 100
unfolding history_limit
history_limit-bound (pos n) = ground arith
history_limit-bound (negsuc n) = ground arith

page_of_rows-bound :
    (chat_id : ℤ) (limit : ℕ) (rows : List HistoryRow)
    → length (page_of_rows chat_id limit rows).items ≤ limit
unfolding page_of_rows
page_of_rows-bound chat_id limit rows =
    let history = aggregate_history_rows rows in
    let kept = if ltb limit (length history) then take limit history else history in
    omega (arith, length-reverse_history kept, kept-bound limit history)
  where
    kept-bound :
        (limit : ℕ) (history : List EventSendMessagePayload)
        → length (if ltb limit (length history) then take limit history else history) ≤ limit
    kept-bound limit history = ground (arith, length-take limit history)

module _ (pg : Postgres) where
  page-bound :
      (params : HistoryPageParams) (db : Db) (page : EventSendMessageHistoryPayload)
      → (get_message_history pg params db).0 ≡ ok page
      → length page.items ≤ page_limit params.limit
  unfolding get_message_history
  page-bound params db page h = elim (Bool-cases (pg.fault db.calls)) [
    | inl fault ↦ absurd (ground (arith, fault))
    | inr run ↦
        let rows =
          history_rows db.tables params.chat_id params.before (page_limit params.limit + 1) in
        let got = arrived (pg.cut db.calls) rows in
        ground (arith, run, page_of_rows-bound params.chat_id (page_limit params.limit) got)
  ]

  module _ (payload : EventGetMessageHistoryPayload) (login : String) where
    -- How a request ends: with the result `r` and the state `t`, from the state `s`.
    pub data HistoryAnswer (s t : Online) : Result HandlerError (Unit {0}) → Type 0 where
      -- a member of the chat gets a page of it, of at most 100 messages
      answered :
          (db : Db) (page : EventSendMessageHistoryPayload)
          → chat_in payload.chat_id s.sources.db.chat ≡ true
          → member payload.chat_id login s.sources.db.chat_user ≡ true
          → db.tables ≡ s.sources.db.tables
          → (get_message_history pg (asked_page payload) db).0 ≡ ok page
          → t.clients.storage
            ≡ hand_to login (Event.message_history (enriched_page page)) s.clients.storage
          → length (enriched_page page).items ≤ 100
          → HistoryAnswer s t (ok tt)
      -- the client is told an error
      refused :
          (message : String) (e : HandlerError)
          → t.clients.storage
            ≡ hand_to login
                (Event.message_history_error
                  (record { chat_id = payload.chat_id; message = message }))
                s.clients.storage
          → HistoryAnswer s t (err e)
      -- the client is not there, or does not take anything
      silent :
          (e : HandlerError) → t.clients.storage ≡ s.clients.storage → HistoryAnswer s t (err e)

    refuse :
        (e : HandlerError) (message : HandlerError → String) (s t : Online)
        → t.clients ≡ s.clients
        → let (r, u) = reported {A = Unit {0}} login payload.chat_id message (err e, t) in
          HistoryAnswer s u r
    unfolding send_history_error send_to
    refuse e message s t same = elim (Option-cases (get_client login t.clients)) [
      | inl gone ↦ rw gone (silent e (ap (λ c. c.storage) same))
      | inr (c, there) ↦ elim (Bool-cases c.stalled) [
        | inl stalled ↦ rw (there, stalled) (silent e (ap (λ c. c.storage) same))
        | inr ready ↦
            rw (there, ready)
              (refused (message e) e (
                ap
                  (λ c.
                    hand_to login
                      (Event.message_history_error
                        (record { chat_id = payload.chat_id; message = message e }))
                      c.storage)
                  same))
      ]
    ]

    module _ (s : Online) where
      abbrev exists : Result StorageError Bool × Db
      exists = chat_exists pg payload.chat_id s.sources.db

      abbrev belongs : Result StorageError Bool × Db
      belongs = is_chat_member pg payload.chat_id login exists.1

      exists-value : (b : Bool) → exists.0 ≡ ok b → chat_in payload.chat_id s.sources.db.chat ≡ b
      unfolding chat_exists
      exists-value b h = ground arith

      exists-tables : exists.1.tables ≡ s.sources.db.tables
      unfolding chat_exists
      exists-tables = ground arith

      belongs-value :
          (b : Bool) → belongs.0 ≡ ok b → member payload.chat_id login s.sources.db.chat_user ≡ b
      unfolding is_chat_member
      belongs-value b h =
          ap (λ t. member payload.chat_id login t.chat_user) (sym exists-tables) ∙ ground arith

      belongs-tables : belongs.1.tables ≡ s.sources.db.tables
      unfolding is_chat_member
      belongs-tables = ground arith ∙ exists-tables

      abbrev with_db : Db → Online
      with_db db = record s { sources = record s.sources { db = db } }

      enriched-bound :
          (db : Db) (page : EventSendMessageHistoryPayload)
          → (get_message_history pg (asked_page payload) db).0 ≡ ok page
          → length (enriched_page page).items ≤ 100
      enriched-bound db page h = omega (
        arith,
        length-map enrich_message_payload page.items,
        page-bound (asked_page payload) db page h,
        history_limit-bound payload.limit,
      )

      answer_page-HistoryAnswer :
          (redis : Redis) (db : Db)
          → chat_in payload.chat_id s.sources.db.chat ≡ true
          → member payload.chat_id login s.sources.db.chat_user ≡ true
          → db.tables ≡ s.sources.db.tables
          → let (r, t) = answer_page pg redis payload login (with_db db) in HistoryAnswer s t r
      unfolding send_to
      answer_page-HistoryAnswer redis db known inside same =
          elim (Result-cases (get_message_history pg (asked_page payload) db).0) [
            | inr (e, failed) ↦
                rw failed (refuse storage_failed (λ _. "failed to load message history") s _ refl)
            | inl (page, got) ↦ elim (Option-cases (get_client login s.clients)) [
              | inl gone ↦ rw (got, gone) (refuse offline not_sent s _ refl)
              | inr (c, there) ↦ elim (Bool-cases c.stalled) [
                | inl stalled ↦ rw (got, there, stalled) (refuse timed_out not_sent s _ refl)
                | inr ready ↦
                    rw (got, there, ready)
                      (answered db page known inside same got refl (enriched-bound db page got))
              ]
            ]
          ]

      answer_history-HistoryAnswer :
          (redis : Redis)
          → let (r, t) = answer_history pg redis payload login s in HistoryAnswer s t r
      unfolding answer_history
      answer_history-HistoryAnswer redis = elim (Bool-cases (not (leb_ℤ payload.chat_id (pos 0)))) [
        | inr low ↦ rw low (refuse bad_request (λ _. "invalid chat id") s s refl)
        | inl valid ↦ elim (Bool-cases (payload.login == "" || payload.login == login)) [
          | inr other ↦ rw (valid, other) (refuse bad_request (λ _. "login mismatch") s s refl)
          | inl own ↦ elim (Result-cases exists.0) [
            | inr (e, failed) ↦
                rw (valid, own, failed)
                  (refuse storage_failed (λ _. "failed to check chat") s (with_db exists.1) refl)
            | inl (false, missing) ↦
                rw (valid, own, missing)
                  (refuse bad_request (λ _. "chat doesn't exist") s (with_db exists.1) refl)
            | inl (true, known) ↦ elim (Result-cases belongs.0) [
              | inr (e, failed) ↦
                  rw (valid, own, known, failed)
                    (refuse storage_failed (λ _. "failed to check chat membership") s
                      (with_db belongs.1) refl)
              | inl (false, outside) ↦
                  rw (valid, own, known, outside)
                    (refuse access_denied (λ _. "access denied") s (with_db belongs.1) refl)
              | inl (true, inside) ↦
                  rw (valid, own, known, inside)
                    (answer_page-HistoryAnswer redis belongs.1 (exists-value true known)
                      (belongs-value true inside) belongs-tables)
            ]
          ]
        ]
      ]

      -- A request for the history that decodes is answered, refused or left silent. Answered: the login
      -- is a member of the chat, and its client, and nobody else, gets the page that the storage
      -- gives for the tables as they are, of at most 100 messages. Refused: its client gets an error
      -- and no message. Silent: no client gets anything.
      pub handle_get_message_history-HistoryAnswer :
          (redis : Redis)
          → let (r, t) = handle_get_message_history pg redis (some payload) login s in
            HistoryAnswer s t r
      unfolding handle_get_message_history
      handle_get_message_history-HistoryAnswer redis = answer_history-HistoryAnswer redis
