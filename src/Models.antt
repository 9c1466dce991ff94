-- ===== src/Models.antt =====
-- messageService/internal/models/models.go: the payloads of the events. An `int` is an integer, a
-- `time.Time` a number of microseconds, a nullable pointer an `Option`.
use simply_chat.Base.{ℕ, ℤ, String, Bool, Option, List}

pub record AttachmentPayload : Type 0 where
  pub file_id : String
  pub original_filename : String
  pub mime_type : String
  pub size : ℤ
  pub kind : String
  pub content_url : String
  pub download_url : String

pub record EventSendMessagePayload : Type 0 where
  pub id : ℤ
  pub chat_id : ℤ
  pub sender_login : String
  pub kind : String
  pub content : String
  pub attachments : List AttachmentPayload
  pub created_at : ℕ

pub record MessageHistoryCursor : Type 0 where
  pub created_at : ℕ
  pub id : ℤ

pub record EventSendMessageHistoryPayload : Type 0 where
  pub chat_id : ℤ
  pub items : List EventSendMessagePayload
  pub has_more : Bool
  pub next_cursor : Option MessageHistoryCursor

pub record EventGetMessageHistoryPayload : Type 0 where
  pub login : String
  pub chat_id : ℤ
  pub limit : ℤ
  pub before : Option MessageHistoryCursor

pub record EventSetActiveChatPayload : Type 0 where
  pub login : String
  pub chat_id : ℤ

pub record EventMessageHistoryErrorPayload : Type 0 where
  pub chat_id : ℤ
  pub message : String

pub record EventChatPayload : Type 0 where
  pub chat_id : ℤ
  pub chat_type : String

pub record EventAddUserToChatPayload : Type 0 where
  pub chat_id : ℤ
  pub user_login : String

-- The envelope of what goes to a client: the type of the event, with its payload.
pub data Event : Type 0 where
  message_history : EventSendMessageHistoryPayload → Event
  message_history_error : EventMessageHistoryErrorPayload → Event
  send_message : EventSendMessagePayload → Event
  add_user_to_chat : EventAddUserToChatPayload → Event
  all_user_chats : List EventChatPayload → Event

-- What comes from a client: a payload is none where it does not decode.
pub data Incoming : Type 0 where
  get_message_history : Option EventGetMessageHistoryPayload → Incoming
  set_active_chat : Option EventSetActiveChatPayload → Incoming
  send_message : Option EventSendMessagePayload → Incoming
  add_user_to_chat : Option EventAddUserToChatPayload → Incoming
  new_chat : Option EventChatPayload → Incoming
  all_user_chats : Incoming
  unknown : Incoming
