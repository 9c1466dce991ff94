-- ===== src/MessageService.antt =====
-- messageService: the client of the file service, the clients that are online, the cached member lists,
-- the sending of messages with files, and the HTTP side.
pub mod Config
pub mod FileClient
pub mod Clients
pub mod Members
pub mod FanOut
pub mod Handlers
pub mod Sessions
pub mod SendFileMessage
pub mod Http
pub mod Statuses
pub mod Routes
pub mod Start
