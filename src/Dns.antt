-- ===== src/Dns.antt =====
-- crates/wsl-dns: the override resolver.
pub mod Wire
pub mod Hosts
pub mod Resolver
pub mod Server
