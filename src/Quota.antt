-- ===== src/Quota.antt =====
-- internal/quota: token buckets and the limiter of requests per agent.
pub mod Bucket
pub mod Limiter
mod Tests
