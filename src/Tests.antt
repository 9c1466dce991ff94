-- ===== src/Tests.antt =====
-- The theorems applied to concrete data: a chat of two members, a bucket in memory, and a file
-- service that keeps one file.
mod Fixtures
pub mod Storage
pub mod Files
pub mod Schedule
pub mod Routes
pub mod Messages
pub mod Gateway
pub mod Proxied
pub mod Events
pub mod Wire
pub mod Config
pub mod Start
