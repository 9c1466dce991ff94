-- ===== src/MessageStorage/Grouping.antt =====
-- aggregateHistoryRows of messageStorage.go, and the left join of the query.
use mathlib.Core.List.{append_assoc, append-nil}
use simply_chat.Base.{
  ℕ, ℤ, false, ◌≡◌, ◌≢◌, refl, sym, ap, ◌∙◌, none, List, [], ◌∷◌, ◌++◌, map, length, modify-append,
  any-append, flat_map, All, Distinct, ◌==◌, ==_refl, ==-false_of_ne, int_eq, string_eq, arith,
}
use simply_chat.Models.{AttachmentPayload, EventSendMessagePayload}
use simply_chat.MessageStorage.Tables.{MessageRow, AttachmentRow}
use simply_chat.MessageStorage.History.{
  HistoryRow, Aggregate, string_or_empty, contains_attachment, index_of, new_message, aggregate_row,
  aggregate_from, aggregate_history_rows, no_attachment_row, attachment_row, left_join,
}

abbrev pub Joined : Type 0
Joined = MessageRow × List AttachmentRow

-- A stored attachment as a payload, before the links are filled in.
abbrev pub stored_attachment : AttachmentRow → AttachmentPayload
stored_attachment a = record {
  file_id = a.file_id;
  original_filename = a.original_filename;
  mime_type = a.mime_type;
  size = a.size;
  kind = a.kind;
  content_url = "";
  download_url = "";
}

-- A stored message with its attachments, as a payload.
abbrev pub stored_message : Joined → EventSendMessagePayload
stored_message (m, as') = record {
  id = m.id;
  chat_id = m.chat_id;
  sender_login = m.sender_login;
  kind = m.kind;
  content = string_or_empty m.message_text;
  attachments = map stored_attachment as';
  created_at = m.added_at;
}

abbrev pub joined_rows : List Joined → List HistoryRow
joined_rows = flat_map (λ p. left_join p.0 p.1)

abbrev IsNew : List AttachmentPayload → AttachmentRow → Type 0
IsNew attachments a = contains_attachment attachments a.file_id ≡ false

IsNew-append :
    (xs : List AttachmentPayload) (a : AttachmentRow) (as' : List AttachmentRow)
    → All (IsNew xs) as'
    → All (λ b. a.file_id ≢ b.file_id) as'
    → All (IsNew (xs ++ stored_attachment a ∷ [])) as'
IsNew-append xs a [] h d = tt
IsNew-append xs a (b ∷ as') h d = (
  ground (
    arith,
    any-append (λ (x : AttachmentPayload). x.file_id == b.file_id) xs (stored_attachment a ∷ []),
    ==-false_of_ne a.file_id b.file_id d.0,
    h.0,
  ),
  IsNew-append xs a as' h.1 d.1,
)

All-none : (as' : List AttachmentRow) → All (IsNew []) as'
All-none [] = tt
All-none (a ∷ as') = (refl, All-none as')

module _ (m : MessageRow) (before : List EventSendMessagePayload) (index : List (ℤ × ℕ)) where
  -- The state in which `m` is the last message, with these attachments so far.
  abbrev at : List AttachmentPayload → Aggregate
  at attachments = record {
    history =
        before ++ record (new_message (no_attachment_row m)) { attachments = attachments } ∷ [];
    by_message_id = (m.id, length before) ∷ index;
  }

  aggregate_row-at :
      (a : AttachmentRow) (xs : List AttachmentPayload)
      → IsNew xs a
      → aggregate_row (at xs) (attachment_row m a) ≡ at (xs ++ stored_attachment a ∷ [])
  unfolding aggregate_row
  aggregate_row-at a xs new = rw (==_refl m.id, modify-append before, new)

  aggregate_from-at :
      (as' : List AttachmentRow) (xs : List AttachmentPayload) (rest : List HistoryRow)
      → All (IsNew xs) as'
      → Distinct (λ a. a.file_id) as'
      → aggregate_from (at xs) (map (attachment_row m) as' ++ rest)
        ≡ aggregate_from (at (xs ++ map stored_attachment as')) rest
  unfolding aggregate_from
  aggregate_from-at [] xs rest new d = rw append-nil
  aggregate_from-at (a ∷ as') xs rest new d =
      ap (λ s. aggregate_from s (map (attachment_row m) as' ++ rest)) (aggregate_row-at a xs new.0)
      ∙ aggregate_from-at as' (xs ++ stored_attachment a ∷ []) rest
          (IsNew-append xs a as' new.1 d.0) d.1
      ∙ ap (λ l. aggregate_from (at l) rest)
          (append_assoc xs (stored_attachment a ∷ []) (map stored_attachment as'))

  abbrev start : Aggregate
  start = record { history = before; by_message_id = index }

  aggregate_row-first :
      index_of m.id index ≡ none → aggregate_row start (no_attachment_row m) ≡ at []
  unfolding aggregate_row
  aggregate_row-first new = rw new

  aggregate_row-first_attachment :
      (a : AttachmentRow)
      → index_of m.id index ≡ none
      → aggregate_row start (attachment_row m a) ≡ at (stored_attachment a ∷ [])
  unfolding aggregate_row
  aggregate_row-first_attachment a new = rw (new, modify-append before)

  All-IsNew :
      (a : AttachmentRow) (as' : List AttachmentRow)
      → All (λ b. a.file_id ≢ b.file_id) as'
      → All (IsNew (stored_attachment a ∷ [])) as'
  All-IsNew a as' d = IsNew-append [] a as' (All-none as') d

  -- The rows of one message, which the loop has not met yet.
  aggregate_from-left_join :
      (as' : List AttachmentRow) (rest : List HistoryRow)
      → index_of m.id index ≡ none
      → Distinct (λ a. a.file_id) as'
      → aggregate_from start (left_join m as' ++ rest)
        ≡ aggregate_from (at (map stored_attachment as')) rest
  unfolding aggregate_from
  aggregate_from-left_join [] rest new d = ap (λ s. aggregate_from s rest) (aggregate_row-first new)
  aggregate_from-left_join (a ∷ as') rest new d =
      ap (λ s. aggregate_from s (map (attachment_row m) as' ++ rest))
        (aggregate_row-first_attachment a new)
      ∙ aggregate_from-at as' (stored_attachment a ∷ []) rest (All-IsNew a as' d.0) d.1

abbrev IsUnknown : List (ℤ × ℕ) → Joined → Type 0
IsUnknown index p = index_of p.0.id index ≡ none

All-IsUnknown :
    (m : MessageRow) (n : ℕ) (index : List (ℤ × ℕ)) (ps : List Joined)
    → All (IsUnknown index) ps
    → All (λ p. m.id ≢ p.0.id) ps
    → All (IsUnknown ((m.id, n) ∷ index)) ps
All-IsUnknown m n index [] h d = tt
All-IsUnknown m n index (p ∷ ps) h d =
    (rw (==-false_of_ne m.id p.0.id d.0) h.0, All-IsUnknown m n index ps h.1 d.1)

aggregate_from-joined_rows :
    (ps : List Joined) (before : List EventSendMessagePayload) (index : List (ℤ × ℕ))
    → All (IsUnknown index) ps
    → Distinct (λ p. p.0.id) ps
    → All (λ p. Distinct (λ (a : AttachmentRow). a.file_id) p.1) ps
    → (aggregate_from (record { history = before; by_message_id = index }) (joined_rows ps)).history
      ≡ before ++ map stored_message ps
unfolding aggregate_from
aggregate_from-joined_rows [] before index new d f = sym (append-nil before)
aggregate_from-joined_rows ((m, as') ∷ ps) before index new d f =
    ap (λ s. s.history) (aggregate_from-left_join m before index as' (joined_rows ps) new.0 f.0)
    ∙ aggregate_from-joined_rows ps (before ++ stored_message (m, as') ∷ [])
        ((m.id, length before) ∷ index) (All-IsUnknown m (length before) index ps new.1 d.0) d.1 f.1
    ∙ append_assoc before (stored_message (m, as') ∷ []) (map stored_message ps)

All-IsUnknown_empty : (ps : List Joined) → All (IsUnknown []) ps
All-IsUnknown_empty [] = tt
All-IsUnknown_empty (p ∷ ps) = (refl, All-IsUnknown_empty ps)

-- Where message ids are distinct and no message holds a file twice (the primary key and the unique
-- constraint of the tables), the aggregation of the rows of the left join gives back each message
-- once, in the order of the rows, with all its attachments in their order.
pub aggregate_history_rows-joined_rows :
    (ps : List Joined)
    → Distinct (λ p. p.0.id) ps
    → All (λ p. Distinct (λ (a : AttachmentRow). a.file_id) p.1) ps
    → aggregate_history_rows (joined_rows ps) ≡ map stored_message ps
unfolding aggregate_history_rows
aggregate_history_rows-joined_rows ps d f =
    aggregate_from-joined_rows ps [] [] (All-IsUnknown_empty ps) d f
