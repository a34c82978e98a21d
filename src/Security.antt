-- ===== src/Security.antt =====
-- internal/security: TLS for the services.
pub mod Mtls
