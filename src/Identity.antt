-- ===== src/Identity.antt =====
-- internal/identity: the registry of agents, and JSON web tokens.
pub mod Registry
pub mod Jwt
mod Tests
