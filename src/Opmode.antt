-- ===== src/Opmode.antt =====
-- internal/opmode: configuration revisions, staged and then committed.
pub mod Revisions
pub mod Store
mod Tests
