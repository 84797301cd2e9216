-- ===== src/Client.antt =====
-- The HTTP client: corRestClient.c.
pub mod Address
pub mod Base64
pub mod Proxy
pub mod Headers
pub mod Exchange
pub mod Text
pub mod Multi
pub mod Follow
