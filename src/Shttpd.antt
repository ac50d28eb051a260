-- ===== src/Shttpd.antt =====
-- The web server of chapter 18, by source file.
pub mod Uri
pub mod Headers
pub mod Parameters
pub mod Response
pub mod Request
pub mod Worker
