-- ===== src/MessageStorage/Scrolling.antt =====
-- A client that asks for the history page by page, each time with the cursor of the last answer.
use mathlib.Core.List.{reverse, reverse-append, append_assoc, map-append}
use simply_chat.Base.{
  ℕ, zero, suc, ◌<◌, ℤ, pos, negsuc, ltb, ltb→lt, true, false, ◌≡◌, refl, sym, ap, ◌∙◌, Option,
  none, some, List, [], ◌∷◌, ◌++◌, map, length, length-append, take_last, take_all, ok, pure, ◌>>=◌,
  arith, if◌then◌else◌, Bool-cases, inl, inr,
}
use simply_chat.Models.{
  EventSendMessagePayload, MessageHistoryCursor, EventSendMessageHistoryPayload,
}
use simply_chat.Postgres.{Postgres}
use simply_chat.MessageStorage.Tables.{MessageRow, Db, Sql, counted}
use simply_chat.MessageStorage.History.{
  HistoryPageParams, older_messages, page_limit, cursor_of, first_cursor, get_message_history,
}
use simply_chat.MessageStorage.Paging.{
  HasKeys, IsHealthy, chat_messages, chat_history, stored, page_of, older_messages-after,
  get_message_history-page_of,
}

-- At most this many requests; the answers are put together, oldest messages first.
pub scroll : Postgres → ℕ → ℤ → ℤ → Option MessageHistoryCursor → Sql (List EventSendMessagePayload)
scroll pg zero chat_id limit before = pure []
scroll pg (suc requests) chat_id limit before = do
  page ← get_message_history pg (record { chat_id = chat_id; limit = limit; before = before })
  let older = scroll pg requests chat_id limit page.next_cursor
  rest ← (if page.has_more then older else pure [])
  pure (rest ++ page.items)

page_limit_pos : (limit : ℤ) → 0 < page_limit limit
page_limit_pos (pos n) = ground arith
page_limit_pos (negsuc n) = ground arith

first_cursor-reverse :
    (xs : List EventSendMessagePayload) (y : EventSendMessagePayload)
    → first_cursor (reverse (xs ++ y ∷ [])) ≡ some (cursor_of y)
first_cursor-reverse xs y = ap first_cursor (reverse-append xs (y ∷ []))

reverse-map-parts :
    (f : MessageRow → EventSendMessagePayload) (a : List MessageRow) (c : MessageRow)
    (b : List MessageRow)
    → reverse (map f b) ++ reverse (map f (a ++ c ∷ [])) ≡ reverse (map f (a ++ c ∷ b))
reverse-map-parts f a c b =
    sym (reverse-append (map f (a ++ c ∷ [])) (map f b))
    ∙ ap reverse (sym (map-append f (a ++ c ∷ []) b))
    ∙ ap (λ l. reverse (map f l)) (append_assoc a (c ∷ []) b)

module _ (pg : Postgres) (chat_id limit : ℤ) (before : Option MessageHistoryCursor) where
  abbrev asked : HistoryPageParams
  asked = record { chat_id = chat_id; limit = limit; before = before }

  scroll_more :
      (requests : ℕ) (db db' : Db) (page : EventSendMessageHistoryPayload)
      (rest : List EventSendMessagePayload)
      → get_message_history pg asked db ≡ (ok page, db')
      → page.has_more ≡ true
      → (scroll pg requests chat_id limit page.next_cursor db').0 ≡ ok rest
      → (scroll pg (suc requests) chat_id limit before db).0 ≡ ok (rest ++ page.items)
  unfolding scroll
  scroll_more requests db db' page rest e more ih = rw (e, more) (rw ih)

  scroll_last :
      (requests : ℕ) (db db' : Db) (page : EventSendMessageHistoryPayload)
      → get_message_history pg asked db ≡ (ok page, db')
      → page.has_more ≡ false
      → (scroll pg (suc requests) chat_id limit before db).0 ≡ ok page.items
  unfolding scroll
  scroll_last requests db db' page e more = rw (e, more)

module _ (pg : Postgres) (h : IsHealthy pg) (chat_id limit : ℤ) where
  abbrev n : ℕ
  n = page_limit limit

  -- From any point of the history: what is older comes back whole.
  scroll-older :
      (requests : ℕ) (db : Db) (before : Option MessageHistoryCursor) (a : List MessageRow)
      → HasKeys db.tables
      → chat_messages db.tables chat_id ≡ a ++ older_messages chat_id before db.message
      → length (older_messages chat_id before db.message) < requests
      → (scroll pg requests chat_id limit before db).0
        ≡ ok (reverse (map (stored db.tables chat_id) (older_messages chat_id before db.message)))
  scroll-older zero db before a k split enough = absurd (omega arith)
  scroll-older (suc requests) db before a k split enough = elim (Bool-cases (ltb n (length ms))) [
    | inl more ↦
        let (init, c, older, parts, first) =
          take_last n ms (page_limit_pos limit) (ltb→lt n (length ms) more) in
        let cursor : page.next_cursor ≡ some (cursor_of (s c)) = rw more (
          ap (λ l. first_cursor (reverse (map s l))) first
          ∙ ap (λ l. first_cursor (reverse l)) (map-append s init (c ∷ []))
          ∙ first_cursor-reverse (map s init) (s c)) in
        let at_c : chat_messages db.tables chat_id ≡ (a ++ init) ++ c ∷ older =
          split ∙ ap (λ l. a ++ l) parts ∙ sym (append_assoc a init (c ∷ older)) in
        let whole : chat_messages db.tables chat_id ≡ (a ++ init ++ c ∷ []) ++ older =
          at_c ∙ sym (append_assoc (a ++ init) (c ∷ []) older) in
        let after : older_messages chat_id page.next_cursor db.message ≡ older =
          rw cursor (older_messages-after db.tables k chat_id (a ++ init) older c at_c) in
        let ih =
          scroll-older requests (counted db) page.next_cursor (a ++ init ++ c ∷ []) k
            (whole ∙ ap (λ l. (a ++ init ++ c ∷ []) ++ l) (sym after))
            (omega (arith, ap length after, ap length parts, length-append init (c ∷ older))) in
        scroll_more pg chat_id limit before requests db (counted db) page _ got more ih
        ∙ ap ok (
            ap (λ l. reverse (map s l) ++ page.items) after
            ∙ ap (λ l. reverse (map s older) ++ reverse (map s l)) first
            ∙ reverse-map-parts s init c older
            ∙ ap (λ l. reverse (map s l)) (sym parts))
    | inr all ↦
        scroll_last pg chat_id limit before requests db (counted db) page got all
        ∙ ap (λ l. ok (reverse (map s l))) (take_all n ms (ground arith))
  ]
    where
      ms : List MessageRow
      ms = older_messages chat_id before db.message

      s : MessageRow → EventSendMessagePayload
      s = stored db.tables chat_id

      page : EventSendMessageHistoryPayload
      page = page_of db.tables chat_id n ms

      got : get_message_history pg (asked pg chat_id limit before) db ≡ (ok page, counted db)
      got = get_message_history-page_of pg (asked pg chat_id limit before) db h k

-- With a healthy database and well-keyed tables that do not change meanwhile, a client that follows
-- the cursors for more requests than the chat has messages gets its whole history, oldest message
-- first: no message is missing and none comes twice, whatever limit it asks for.
pub scroll-chat_history :
    (pg : Postgres) (db : Db) (chat_id limit : ℤ) (requests : ℕ)
    → IsHealthy pg
    → HasKeys db.tables
    → length (chat_messages db.tables chat_id) < requests
    → (scroll pg requests chat_id limit none db).0 ≡ ok (chat_history db.tables chat_id)
scroll-chat_history pg db chat_id limit requests h k enough =
    scroll-older pg h chat_id limit requests db none [] k refl enough
