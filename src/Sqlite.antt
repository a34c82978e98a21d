-- ===== src/Sqlite.antt =====
-- internal/store: the tables of SQLite behind the registry, the engine and the limiter.
pub mod Table
pub mod Store
mod Tests
