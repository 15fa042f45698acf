-- ===== src/Http.antt =====
-- src/http.c: the parser of HTTP requests, and what it uses.
pub mod Method
pub mod Path
pub mod Line
pub mod Header
pub mod Request
mod Tests
