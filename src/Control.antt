-- ===== src/Control.antt =====
-- crates/wsl-control: the control plane.
pub mod Database
pub mod Ipam
pub mod Sessions
pub mod Gateways
mod SessionRuns
pub mod RateLimit
