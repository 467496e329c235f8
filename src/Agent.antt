-- ===== src/Agent.antt =====
-- crates/wsl-agent: the endpoint.
pub mod Profile
