-- ===== src/Audit.antt =====
-- internal/audit: the events, what is required of one, the log and queries over it.
pub mod Event
pub mod Query
mod Tests
