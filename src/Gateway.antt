-- ===== src/Gateway.antt =====
-- The API gateway: apiGateway/internal.
pub mod Auth
pub mod Tokens
pub mod Cookies
pub mod Requests
pub mod AuthHandler
pub mod MessageClient
pub mod ChatHandler
pub mod WsProxy
pub mod Routes
pub mod Start
