-- ===== src/Waf.antt =====
-- src/security/waf.rs: the web application firewall. Instants are nanoseconds, `f64` is a
-- parameter, and a call reads the clock once, where the source reads it a few times in a row.
-- Requests come with their header and path as ASCII, as the HTTP crate gives them.
pub mod Config
pub mod Tokens
pub mod Reputation
pub mod Service
pub mod Http
pub mod Bucket
pub mod Blocking
pub mod Middleware
mod Tests
