-- ===== src/Ctl.antt =====
-- cmd/clawgressctl/main.go: the candidate configuration of the command line client, and its configure mode.
pub mod Candidate
pub mod Literal
pub mod Render
pub mod Edit
pub mod Session
pub mod Token
pub mod Commands
mod Tests
