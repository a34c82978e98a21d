-- ===== src/Gateway.antt =====
-- cmd/clawgress-gateway/main.go: the proxy's handler.
pub mod Auth
pub mod Handler
pub mod Startup
mod Tests
