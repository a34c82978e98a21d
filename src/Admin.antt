-- ===== src/Admin.antt =====
-- cmd/clawgress-admin-api/main.go: the endpoints over the agents, the policies and the quotas.
pub mod Resource
pub mod Agents
pub mod Policies
pub mod Quotas
pub mod Commit
pub mod Operate
pub mod Tools
pub mod Environment
mod Tests
