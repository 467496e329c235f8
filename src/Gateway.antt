-- ===== src/Gateway.antt =====
-- crates/wsl-gateway: the process on the hub that puts the peers of open sessions on the wire.
pub mod Peers
pub mod Firewall
pub mod Apply
