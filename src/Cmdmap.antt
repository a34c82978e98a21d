-- ===== src/Cmdmap.antt =====
-- internal/cmdmap: the table of commands, which paths it accepts, and the catalogue made from it.
pub mod Values
pub mod Paths
pub mod Catalog
mod Tests
