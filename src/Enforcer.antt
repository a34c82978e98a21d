-- ===== src/Enforcer.antt =====
-- internal/enforcer: what a committed configuration makes the system do.
pub mod Tree
pub mod Interfaces
pub mod Families
pub mod Plan
pub mod Execution
pub mod Nftables
pub mod PolicyNft
pub mod Transparent
mod Tests
