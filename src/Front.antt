-- ===== src/Front.antt =====
-- What stands before the handler of internal/server/server.go: the `ServeMux` that `New` fills, the
-- health endpoint and the middleware for the request ID.
pub mod Mux
pub mod Health
pub mod Entry
pub mod Kept
pub mod Answered
pub mod Admitted
pub mod Carried
pub mod Scraped
mod Tests
