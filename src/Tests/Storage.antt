-- ===== src/Tests/Storage.antt =====
-- The storage of messages, on the sample tables.
use simply_chat.Base.{
  ℕ, pos, ◌<◌, ◌≡◌, refl, none, List, [], ◌∷◌, map, All, sort_by, length, ok, arith, ne-of_==-false,
  string_eq,
}
use simply_chat.Models.{EventSendMessagePayload}
use simply_chat.MessageStorage.Tables.{counted}
use simply_chat.MessageStorage.Messages.{
  FileAttachmentRecord, with_tx, create_file_message, create_file_message_tx, create_message_tx,
  create_attachments_tx, insert_attachment, insert_message, to_attachment_payload,
}
use simply_chat.MessageStorage.FileMessages.{IsShared, create_file_message-IsShared}
use simply_chat.MessageStorage.Creation.{Creation, create_file_message-Creation}
use simply_chat.MessageStorage.Operations.{
  operate_all, empty_db, storage-IsWellFormed, creates_chat, adds_user,
}
use simply_chat.MessageStorage.Invariant.{IsWellFormed}
use simply_chat.MessageStorage.History.{
  aggregate_history_rows, get_message_history, older_messages, HistoryPageParams,
}
use simply_chat.MessageStorage.Grouping.{
  Joined, joined_rows, stored_message, aggregate_history_rows-joined_rows,
}
use simply_chat.MessageStorage.Paging.{
  chat_messages, chat_history, page_of, get_message_history-page,
}
use simply_chat.MessageStorage.Scrolling.{scroll, scroll-chat_history}
use simply_chat.Tests.Fixtures.{
  healthy, failing_at, healthy-IsHealthy, message, attachment, tables, tables-HasKeys, db,
}

few_messages : length (chat_messages tables (pos 1)) < 4
unfolding older_messages sort_by
few_messages = omega arith

-- Three messages, asked for two at a time.
scroll_example : (scroll healthy 4 (pos 1) (pos 2) none db).0 ≡ ok (chat_history tables (pos 1))
scroll_example =
    scroll-chat_history healthy db (pos 1) (pos 2) 4 healthy-IsHealthy tables-HasKeys few_messages

abbrev first_page : HistoryPageParams
first_page = record { chat_id = pos 1; limit = pos 2; before = none }

page_example :
    get_message_history healthy first_page db
    ≡ (ok (page_of tables (pos 1) 2 (older_messages (pos 1) none db.message)), counted db)
page_example = get_message_history-page healthy first_page db healthy-IsHealthy tables-HasKeys

-- A chat for two with a third user, whose insertion fails.
writes_example : IsWellFormed (
    operate_all healthy
      (creates_chat (pos 2)
        ∷ adds_user (pos 1) "ann"
        ∷ adds_user (pos 1) "bob"
        ∷ adds_user (pos 1) "eve"
        ∷ [])
      empty_db)
writes_example =
    storage-IsWellFormed healthy
      (creates_chat (pos 2)
        ∷ adds_user (pos 1) "ann"
        ∷ adds_user (pos 1) "bob"
        ∷ adds_user (pos 1) "eve"
        ∷ [])
      (omega arith, (tt, (tt, (tt, tt))))

abbrev numbers : List ℕ
numbers = 1 ∷ 2 ∷ 3 ∷ []

abbrev grouped : List Joined
grouped = (message 1 10, []) ∷ (message 2 20, attachment 1 2 "f" ∷ attachment 2 2 "g" ∷ []) ∷ []

aggregate_example : aggregate_history_rows (joined_rows grouped) ≡ map stored_message grouped
aggregate_example =
    aggregate_history_rows-joined_rows grouped ((λ h. ground arith, tt), (tt, tt))
      (tt, (((ne-of_==-false "f" "g" refl, tt), (tt, tt)), tt))

abbrev picture : FileAttachmentRecord
picture = record {
  file_id = "h";
  original_filename = "h.png";
  mime_type = "image/png";
  size = pos 3;
  kind = "image";
}

abbrev sent_picture : EventSendMessagePayload
sent_picture = record {
  id = pos 4;
  chat_id = pos 1;
  sender_login = "ann";
  kind = "file";
  content = "";
  attachments = to_attachment_payload picture ∷ [];
  created_at = 2;
}

picture_sent : (create_file_message healthy (pos 1) "ann" (picture ∷ []) db).0 ≡ ok sent_picture
unfolding create_file_message with_tx create_file_message_tx create_message_tx create_attachments_tx
    insert_message insert_attachment to_attachment_payload
picture_sent = refl

shared_example :
    All
      (IsShared healthy
        (pos 1)
        tables.chat_user
        (create_file_message healthy (pos 1) "ann" (picture ∷ []) db).1.tables)
      (picture ∷ [])
    × (sent_picture.attachments ≡ map to_attachment_payload (picture ∷ []))
shared_example =
    create_file_message-IsShared healthy (pos 1) "ann" (picture ∷ []) db sent_picture picture_sent

-- The attachment's statement fails after the message's.
creation_example :
    let (r, t) = create_file_message (failing_at 2) (pos 1) "ann" (picture ∷ []) db in
    Creation (failing_at 2) (pos 1) "ann" (picture ∷ []) tables t.tables r
creation_example = create_file_message-Creation (failing_at 2) (pos 1) "ann" (picture ∷ []) db
