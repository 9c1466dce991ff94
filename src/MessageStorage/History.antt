-- ===== src/MessageStorage/History.antt =====
-- GetMessageHistory of messageService/internal/storage/postgres/messageStorage/messageStorage.go:
-- the query for a page, the aggregation of its rows and the reversal in place.
use simply_chat.Base.{
  ℕ, zero, suc, ◌+◌, ◌-◌, ℤ, pos, pos_part, ltb, leb_ℤ, ltb_ℤ, String, Bool, true, ◌&&◌, ◌||◌,
  Option, none, some, List, [], ◌∷◌, ◌++◌, map, length, take, modify, select, any, pure, ◌>>=◌,
  ◌==◌, nat_eq, int_eq, string_eq, if◌then◌else◌, get_elem?, set, sort_by, flat_map,
}
use simply_chat.Models.{
  AttachmentPayload, EventSendMessagePayload, MessageHistoryCursor, EventSendMessageHistoryPayload,
}
use simply_chat.Postgres.{Postgres}
use simply_chat.MessageStorage.Tables.{MessageRow, AttachmentRow, Tables, Sql, query_rows}

pub record HistoryRow : Type 0 where
  pub message_id : ℤ
  pub chat_id : ℤ
  pub sender_login : String
  pub kind : String
  pub content : String
  pub created_at : ℕ
  pub file_id : Option String
  pub original_filename : Option String
  pub mime_type : Option String
  pub size : Option ℤ
  pub attachment_kind : Option String

pub record HistoryPageParams : Type 0 where
  pub chat_id : ℤ
  pub limit : ℤ
  pub before : Option MessageHistoryCursor

abbrev pub string_or_empty : Option String → String
string_or_empty none = ""
string_or_empty (some value) = value

abbrev pub int64_or_zero : Option ℤ → ℤ
int64_or_zero none = pos 0
int64_or_zero (some value) = value

abbrev pub contains_attachment : List AttachmentPayload → String → Bool
contains_attachment attachments file_id = any (λ a. a.file_id == file_id) attachments

-- The variables of the loop: the slice, and the map from a message id to its index.
pub record Aggregate : Type 0 where
  pub history : List EventSendMessagePayload
  pub by_message_id : List (ℤ × ℕ)

abbrev pub index_of : ℤ → List (ℤ × ℕ) → Option ℕ
index_of id [] = none
index_of id ((k, i) ∷ m) = if k == id then some i else index_of id m

abbrev pub new_message : HistoryRow → EventSendMessagePayload
new_message row = record {
  id = row.message_id;
  chat_id = row.chat_id;
  sender_login = row.sender_login;
  kind = row.kind;
  content = row.content;
  attachments = [];
  created_at = row.created_at;
}

-- The first half of the loop's body: the index of the row's message, which is appended if new.
abbrev pub enter : HistoryRow → Option ℕ → Aggregate → ℕ × Aggregate
enter row (some index) s = (index, s)
enter row none s =
    let index = length s.history in
    (
      index,
      record {
        history = s.history ++ new_message row ∷ [];
        by_message_id = (row.message_id, index) ∷ s.by_message_id;
      },
    )

abbrev pub row_attachment : HistoryRow → String → AttachmentPayload
row_attachment row file_id = record {
  file_id = file_id;
  original_filename = string_or_empty row.original_filename;
  mime_type = string_or_empty row.mime_type;
  size = int64_or_zero row.size;
  kind = string_or_empty row.attachment_kind;
  content_url = "";
  download_url = "";
}

abbrev pub add_attachment : AttachmentPayload → EventSendMessagePayload → EventSendMessagePayload
add_attachment a m =
    if contains_attachment m.attachments a.file_id
    then m
    else record m { attachments = m.attachments ++ a ∷ [] }

-- The second half: nothing for a message without attachments.
abbrev pub attach : HistoryRow → Option String → ℕ × Aggregate → Aggregate
attach row none (index, s) = s
attach row (some file_id) (index, s) = record s {
  history = modify index (add_attachment (row_attachment row file_id)) s.history;
}

unfoldable pub aggregate_row : Aggregate → HistoryRow → Aggregate
aggregate_row s row = attach row row.file_id (enter row (index_of row.message_id s.by_message_id) s)

unfoldable pub aggregate_from : Aggregate → List HistoryRow → Aggregate
aggregate_from s [] = s
aggregate_from s (row ∷ rows) = aggregate_from (aggregate_row s row) rows

unfoldable pub aggregate_history_rows : List HistoryRow → List EventSendMessagePayload
unfolding aggregate_from aggregate_row
aggregate_history_rows rows =
    (aggregate_from (record { history = []; by_message_id = [] }) rows).history

-- `history[left], history[right] = history[right], history[left]`; out of range nothing changes.
abbrev pub put_both {ℓ} : {A : Type ℓ} → ℕ → ℕ → Option A → Option A → List A → List A
put_both left right (some x) (some y) xs = set (set xs left y) right x
put_both left right _ _ xs = xs

unfoldable pub swap {ℓ} : {A : Type ℓ} → ℕ → ℕ → List A → List A
swap left right xs = put_both left right (get_elem? xs left) (get_elem? xs right) xs

-- The loop with two indices. `len - 1` is -1 for an empty slice in the source, and 0 here: the loop
-- ends at once either way.
unfoldable pub reverse_loop {ℓ} : {A : Type ℓ} → ℕ → ℕ → ℕ → List A → List A
unfolding swap
reverse_loop zero left right xs = xs
reverse_loop (suc fuel) left right xs =
    let rest = reverse_loop fuel (left + 1) (right - 1) (swap left right xs) in
    if ltb left right then rest else xs

-- Each round brings the indices together, so one round for each element is enough.
unfoldable pub reverse_history {ℓ} : {A : Type ℓ} → List A → List A
unfolding reverse_loop
reverse_history history = reverse_loop (length history) 0 (length history - 1) history

-- `(added_at, id) < (t, i)`
abbrev pub before_key : ℕ → ℤ → MessageRow → Bool
before_key t i m = ltb m.added_at t || (m.added_at == t && ltb_ℤ m.id i)

abbrev pub older_than : Option MessageHistoryCursor → MessageRow → Bool
older_than none m = true
older_than (some cursor) m = before_key cursor.created_at cursor.id m

-- `order by added_at desc, id desc`: whether `a` stands before `b`.
abbrev pub newer : MessageRow → MessageRow → Bool
newer a b = before_key a.added_at a.id b

-- The rows of `paged_messages`, newest first, without the limit.
unfoldable pub older_messages : ℤ → Option MessageHistoryCursor → List MessageRow → List MessageRow
older_messages chat_id before rows =
    sort_by newer (select (λ m. m.chat_id == chat_id && older_than before m) rows)

abbrev pub no_attachment_row : MessageRow → HistoryRow
no_attachment_row m = record {
  message_id = m.id;
  chat_id = m.chat_id;
  sender_login = m.sender_login;
  kind = m.kind;
  content = string_or_empty m.message_text;
  created_at = m.added_at;
  file_id = none;
  original_filename = none;
  mime_type = none;
  size = none;
  attachment_kind = none;
}

abbrev pub attachment_row : MessageRow → AttachmentRow → HistoryRow
attachment_row m a = record (no_attachment_row m) {
  file_id = some a.file_id;
  original_filename = some a.original_filename;
  mime_type = some a.mime_type;
  size = some a.size;
  attachment_kind = some a.kind;
}

-- `left join`: a message without attachments gives one row of NULLs.
abbrev pub left_join : MessageRow → List AttachmentRow → List HistoryRow
left_join m [] = no_attachment_row m ∷ []
left_join m (a ∷ as') = map (attachment_row m) (a ∷ as')

-- The attachments of a message, by id.
unfoldable pub attachments_of : List AttachmentRow → MessageRow → List AttachmentRow
attachments_of rows m = sort_by (λ a b. ltb_ℤ a.id b.id) (select (λ a. a.message_id == m.id) rows)

-- The whole query, with its `limit`.
unfoldable pub history_rows : Tables → ℤ → Option MessageHistoryCursor → ℕ → List HistoryRow
history_rows t chat_id before limit =
    flat_map (λ m. left_join m (attachments_of t.message_attachment m))
      (take limit (older_messages chat_id before t.message))

abbrev pub page_limit : ℤ → ℕ
page_limit limit = if leb_ℤ limit (pos 0) then 50 else pos_part limit

abbrev pub cursor_of : EventSendMessagePayload → MessageHistoryCursor
cursor_of m = record { created_at = m.created_at; id = m.id }

abbrev pub first_cursor : List EventSendMessagePayload → Option MessageHistoryCursor
first_cursor [] = none
first_cursor (oldest ∷ _) = some (cursor_of oldest)

-- What follows the query: aggregate, cut to the limit, reverse, set the cursor.
unfoldable pub page_of_rows : ℤ → ℕ → List HistoryRow → EventSendMessageHistoryPayload
page_of_rows chat_id limit rows =
    let history = aggregate_history_rows rows in
    let has_more = ltb limit (length history) in
    let items = reverse_history (if has_more then take limit history else history) in
    record {
      chat_id = chat_id;
      items = items;
      has_more = has_more;
      next_cursor = if has_more then first_cursor items else none;
    }

unfoldable pub get_message_history :
    Postgres → HistoryPageParams → Sql EventSendMessageHistoryPayload
get_message_history pg params = do
  let limit = page_limit params.limit
  rows ← query_rows pg (λ db. history_rows db.tables params.chat_id params.before (limit + 1))
  pure (page_of_rows params.chat_id limit rows)
