-- ===== src/Dns.antt =====
-- internal/dns: zone files for the names that the policy denies.
pub mod Rpz
pub mod Zone
mod Tests
