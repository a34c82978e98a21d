-- ===== src/Policy.antt =====
-- internal/policy: the rules, how a rule matches a request, the engine, conflicts and signed bundles.
pub mod Rule
pub mod Domain
pub mod Engine
pub mod Conflict
pub mod Signing
mod Tests
