-- ===== src/FileService.antt =====
-- fileService: metadata in PostgreSQL, objects in an S3 store, and the service over both.
pub mod Config
pub mod Errors
pub mod Metadata
pub mod ObjectStorage
pub mod S3
pub mod Names
pub mod Service
pub mod Routes
pub mod Schedule
pub mod Start
pub mod Http
