-- ===== src/MessageStorage.antt =====
-- messageService/internal/storage/postgres/messageStorage: the queries over the tables of
-- messageService/docker/init.sql.
pub mod Tables
pub mod Chats
pub mod Messages
pub mod Transactions
pub mod Stored
pub mod Creation
pub mod Attachments
pub mod FileMessages
pub mod Invariant
pub mod Operations
pub mod History
pub mod Reversal
pub mod Grouping
pub mod Paging
pub mod Scrolling
