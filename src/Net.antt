-- ===== src/Net.antt =====
-- The part of Go's net/http and net/url that the middlewares use.
pub mod Header
pub mod Url
pub mod Query
pub mod Request
pub mod Web
