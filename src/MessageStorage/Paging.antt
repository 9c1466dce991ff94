-- ===== src/MessageStorage/Paging.antt =====
-- A page of history against the whole history of the chat, and the pages that a client gets by
-- following the cursors.
use mathlib.Core.Path.{subst}
use mathlib.Core.List.{reverse}
use native.Mathlib.Numerals.{add-one}
use simply_chat.Base.{
  ℕ, zero, suc, pos, negsuc, ◌+◌, ℤ, ltb, ltb_ℤ, Bool, true, false, ◌&&◌, ◌≡◌, ◌≢◌, refl, sym, ap,
  ◌∙◌, Option, none, some, List, [], ◌∷◌, ◌++◌, map, length, take, ltb-length-take, cut-take,
  Distinct-take, select, sort_by, flat_map, All, Distinct, ok, ◌==◌, nat_eq, int_eq, string_eq,
  arith, if◌then◌else◌,
}
use simply_chat.Base.Sorting.{
  IsOrder, Sorted, Distinct-select, Distinct-sort_by, sort_by-Sorted, select-sort_by, select-Sorted,
}
use simply_chat.Models.{
  EventSendMessagePayload, MessageHistoryCursor, EventSendMessageHistoryPayload,
}
use simply_chat.Postgres.{Postgres}
use simply_chat.MessageStorage.Tables.{MessageRow, AttachmentRow, Tables, Db, counted}
use simply_chat.MessageStorage.History.{
  HistoryPageParams, newer, older_than, older_messages, attachments_of, history_rows, page_limit,
  cursor_of, first_cursor, page_of_rows, get_message_history, aggregate_history_rows, left_join,
}
use simply_chat.MessageStorage.Reversal.{reverse_history-eq-reverse}
use simply_chat.MessageStorage.Grouping.{
  Joined, stored_message, joined_rows, aggregate_history_rows-joined_rows,
}

newer_trans : (a b c : MessageRow) → newer a b ≡ true → newer b c ≡ true → newer a c ≡ true
newer_trans a b c p q = ground arith

newer_asym : (a b : MessageRow) → newer a b ≡ true → newer b a ≡ false
newer_asym a b p = ground arith

newer_total : (a b : MessageRow) → a.id ≢ b.id → newer a b ≡ false → newer b a ≡ true
newer_total a b d p = ground arith

newer-IsOrder : IsOrder (λ (m : MessageRow). m.id) newer
newer-IsOrder = record { trans = newer_trans; asym = newer_asym; total = newer_total }

-- The constraints of the tables that the history relies on: the primary key of the messages
-- and the unique one of the attachments.
pub record HasKeys (t : Tables) : Type 0 where
  pub message_ids : Distinct (λ (m : MessageRow). m.id) t.message
  pub files_once :
      (m : MessageRow)
      → Distinct
          (λ (a : AttachmentRow). a.file_id)
          (select (λ a. a.message_id == m.id) t.message_attachment)

module _ (t : Tables) (chat_id : ℤ) where
  -- All the messages of the chat, newest first.
  abbrev pub chat_messages : List MessageRow
  chat_messages = older_messages chat_id none t.message

  -- A stored message with its attachments.
  abbrev pub stored : MessageRow → EventSendMessagePayload
  stored m = stored_message (m, attachments_of t.message_attachment m)

  -- The history of the chat as a client shows it: oldest first, with attachments.
  abbrev pub chat_history : List EventSendMessagePayload
  chat_history = reverse (map stored chat_messages)

  -- What the page of a list of messages should be.
  abbrev pub page_of : ℕ → List MessageRow → EventSendMessageHistoryPayload
  page_of n ms =
      let items = reverse (map (stored) (take n ms)) in
      let has_more = ltb n (length ms) in
      record {
        chat_id = chat_id;
        items = items;
        has_more = has_more;
        next_cursor = if has_more then first_cursor items else none;
      }

-- `where` with two conditions, one after the other.
select-and :
    (chat_id : ℤ) (p : MessageRow → Bool) (rows : List MessageRow)
    → select (λ m. m.chat_id == chat_id && p m) rows
      ≡ select p (select (λ m. m.chat_id == chat_id && true) rows)
select-and chat_id p [] = refl
select-and chat_id p (m ∷ rows) = ground (arith, select-and chat_id p rows)

Distinct-join :
    (files : MessageRow → List AttachmentRow) (ms : List MessageRow)
    → Distinct (λ (m : MessageRow). m.id) ms
    → Distinct (λ (p : Joined). p.0.id) (map (λ m. (m, files m)) ms)
Distinct-join files [] d = tt
Distinct-join files (m ∷ ms) d = (All-join m ms d.0, Distinct-join files ms d.1)
  where
    All-join :
        (m : MessageRow) (ms : List MessageRow)
        → All (λ (n : MessageRow). m.id ≢ n.id) ms
        → All (λ (p : Joined). m.id ≢ p.0.id) (map (λ n. (n, files n)) ms)
    All-join m [] h = tt
    All-join m (n ∷ ms) h = (h.0, All-join m ms h.1)

module _ (t : Tables) (k : HasKeys t) (chat_id : ℤ) where
  abbrev files : MessageRow → List AttachmentRow
  files = attachments_of t.message_attachment

  files-Distinct : (m : MessageRow) → Distinct (λ (a : AttachmentRow). a.file_id) (files m)
  unfolding attachments_of
  files-Distinct m = Distinct-sort_by (λ a. a.file_id) (λ a b. ltb_ℤ a.id b.id) _ (k.files_once m)

  All-files :
      (ms : List MessageRow)
      → All
          (λ (p : Joined). Distinct (λ (a : AttachmentRow). a.file_id) p.1)
          (map (λ m. (m, files m)) ms)
  All-files [] = tt
  All-files (m ∷ ms) = (files-Distinct m, All-files ms)

  rows-joined :
      (ms : List MessageRow)
      → flat_map (λ m. left_join m (files m)) ms ≡ joined_rows (map (λ m. (m, files m)) ms)
  rows-joined [] = refl
  rows-joined (m ∷ ms) = ap (λ rows. left_join m (files m) ++ rows) (rows-joined ms)

  map-joined :
      (ms : List MessageRow)
      → map stored_message (map (λ m. (m, files m)) ms) ≡ map (stored t chat_id) ms
  map-joined [] = refl
  map-joined (m ∷ ms) = ap (λ l. stored t chat_id m ∷ l) (map-joined ms)

  aggregate-joined :
      (ms : List MessageRow)
      → Distinct (λ (m : MessageRow). m.id) ms
      → aggregate_history_rows (flat_map (λ m. left_join m (files m)) ms)
        ≡ map (stored t chat_id) ms
  aggregate-joined ms d =
      ap aggregate_history_rows (rows-joined ms)
      ∙ aggregate_history_rows-joined_rows (map (λ m. (m, files m)) ms) (Distinct-join files ms d)
          (All-files ms)
      ∙ map-joined ms

  older_messages-select :
      (before : Option MessageHistoryCursor)
      → older_messages chat_id before t.message
        ≡ select (older_than before) (chat_messages t chat_id)
  unfolding older_messages
  older_messages-select before =
      ap (sort_by newer) (select-and chat_id (older_than before) t.message)
      ∙ sym (
          select-sort_by (λ m. m.id) newer newer-IsOrder (older_than before) _
            (Distinct-select (λ m. m.chat_id == chat_id && true) (λ m. m.id) t.message
              k.message_ids))

  chat_messages-Sorted : Sorted newer (chat_messages t chat_id)
  unfolding older_messages
  chat_messages-Sorted =
      sort_by-Sorted (λ m. m.id) newer newer-IsOrder _
        (Distinct-select (λ m. m.chat_id == chat_id && true) (λ m. m.id) t.message k.message_ids)

  older_messages-Distinct :
      (before : Option MessageHistoryCursor)
      → Distinct (λ (m : MessageRow). m.id) (older_messages chat_id before t.message)
  unfolding older_messages
  older_messages-Distinct before =
      Distinct-sort_by (λ m. m.id) newer _ (Distinct-select _ (λ m. m.id) t.message k.message_ids)

  -- The messages behind the cursor of one of them are those after it.
  pub older_messages-after :
      (a b : List MessageRow) (c : MessageRow)
      → chat_messages t chat_id ≡ a ++ c ∷ b
      → older_messages chat_id (some (cursor_of (stored t chat_id c))) t.message ≡ b
  older_messages-after a b c e =
      older_messages-select (some (cursor_of (stored t chat_id c)))
      ∙ ap (select (newer c)) e
      ∙ select-Sorted (λ m. m.id) newer newer-IsOrder a b c
          (subst (Sorted newer) e chat_messages-Sorted)

  page_of_rows-eq :
      (n : ℕ) (ms : List MessageRow)
      → Distinct (λ (m : MessageRow). m.id) ms
      → page_of_rows chat_id n (flat_map (λ m. left_join m (files m)) (take (suc n) ms))
        ≡ page_of t chat_id n ms
  unfolding page_of_rows
  page_of_rows-eq n ms d = rw (
    aggregate-joined (take (suc n) ms) (Distinct-take (λ m. m.id) (suc n) ms d),
    ltb-length-take (stored t chat_id) n ms,
    cut-take (stored t chat_id) n ms,
    reverse_history-eq-reverse,
  )

  history_rows-page :
      (n : ℕ) (before : Option MessageHistoryCursor)
      → page_of_rows chat_id n (history_rows t chat_id before (n + 1))
        ≡ page_of t chat_id n (older_messages chat_id before t.message)
  unfolding history_rows
  history_rows-page n before =
      rw (add-one n) (
        page_of_rows-eq n (older_messages chat_id before t.message)
          (older_messages-Distinct before))

-- The database answers, and every row of a result arrives.
pub record IsHealthy (pg : Postgres) : Type 0 where
  pub no_fault : (n : ℕ) → pg.fault n ≡ false
  pub no_cut : (n : ℕ) → pg.cut n ≡ none

-- The number of messages on a page where this many are asked for.
abbrev pub asked_limit : ℤ → ℕ
asked_limit (pos zero) = 50
asked_limit (pos (suc n)) = suc n
asked_limit (negsuc n) = 50

page_limit_of : (limit : ℤ) → page_limit limit ≡ asked_limit limit
page_limit_of (pos zero) = refl
page_limit_of (pos (suc n)) = ground arith
page_limit_of (negsuc n) = ground arith

pub get_message_history-page_of :
    (pg : Postgres) (params : HistoryPageParams) (db : Db)
    → IsHealthy pg
    → HasKeys db.tables
    → get_message_history pg params db ≡ (
      ok (
          page_of db.tables params.chat_id
            (page_limit params.limit)
            (older_messages params.chat_id params.before db.message)),
      counted db,
    )
unfolding get_message_history
get_message_history-page_of pg params db h k =
    rw (h.no_fault db.calls, h.no_cut db.calls)
      (ap (λ page. (ok page, counted db))
        (history_rows-page db.tables k params.chat_id (page_limit params.limit) params.before))

-- With a healthy database, a page holds the newest messages behind the cursor, at most the limit
-- (50 where none is asked for), oldest first and each with its attachments; `has_more` tells
-- whether there are others, and only then the cursor is set, to the oldest message of the page. The
-- tables stay as they are.
pub get_message_history-page :
    (pg : Postgres) (params : HistoryPageParams) (db : Db)
    → IsHealthy pg
    → HasKeys db.tables
    → get_message_history pg params db ≡ (
      ok (
          page_of db.tables params.chat_id
            (asked_limit params.limit)
            (older_messages params.chat_id params.before db.message)),
      counted db,
    )
get_message_history-page pg params db h k =
    get_message_history-page_of pg params db h k
    ∙ ap
        (λ n. (
          ok (
              page_of db.tables params.chat_id n
                (older_messages params.chat_id params.before db.message)),
          counted db,
        ))
        (page_limit_of params.limit)
