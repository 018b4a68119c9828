-- ===== src/Http.antt =====
-- The HTTP layer: include/agora/net/http and src/net/http.
pub mod Request
pub mod Context
pub mod Response
pub mod Mime
pub mod StaticFiles
pub mod Server
