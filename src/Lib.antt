-- ===== src/Lib.antt =====
-- WSL Zero Trust: a model of the parts of the Rust workspace that decide who gets in, and proofs
-- about them.
--
-- The workspace is a VPN with a control plane (crates/wsl-control), which decides who may open a
-- session by evaluating policies (crates/wsl-policy); gateways (crates/wsl-gateway), which put the
-- peers of the open sessions on a WireGuard interface; and agents (crates/wsl-agent) and a command
-- line on the endpoint, where a small resolver (crates/wsl-dns) answers for overridden names. The
-- control plane's service for sessions calls `wsl_policy::evaluate` with the posture that the agent
-- reports; its routers pass every request through the rate limiter.
--
-- Base: the native numbers, lists, tests and text that all parts share. Base/Strings is what
--   the Rust standard library does with a `str`. A text is the list of its code points, and its
--   UTF-8 bytes are computed where the source takes bytes.
-- Policy: crates/wsl-policy/src/lib.rs and the posture of crates/wsl-types/src/device.rs. The
--   documents as records, `parse_policy_yaml`, `matches_subjects`, `device_ok`, `evaluate` under
--   their names; Policy/Spec says what a policy asks without the tests of the code.
--   `serde_yaml::from_str` is a parameter. A session's duration is its whole number of seconds.
-- Dns/Wire: crates/wsl-dns/src/wire.rs. Buffers are lists of bytes, read by index as in the source.
--   `parse_query`, `answer`, `error`, `error_for_id`, `build_query` under their names;
--   Dns/Wire/Response has `parse_response` and `skip_name`. The loops over the labels of a name
--   take one round of fuel for every byte of the buffer and one more, and each round moves past a
--   byte at least; running out of fuel is an outcome of its own in both.
-- Dns/Hosts: crates/wsl-dns/src/hosts.rs. `parse`, `lookup`, `set`, `entries`, `render`, `routed_domains`
--   and `normalise` under their names; `remove` is `remove_entry`. A `BTreeMap` is the list of its
--   entries in the order of the keys (Base/TextMap). The loop of `lookup` up the labels is `walk_up`,
--   with one round of fuel more than the name has characters: each round drops one at least. The text of
--   addresses is the parameter `IpText`.
-- Dns/Resolver: crates/wsl-dns/src/resolver.rs. A directory is the list of its entries; the two loops of
--   `sync` are `write_domains` and `remove_stale`. What the file system refuses is the parameter `Disk`,
--   and a listing that starts is complete.
-- Dns/Server: crates/wsl-dns/src/server.rs. `handle`, `refresh`, `load` and `parse_resolv_conf` under
--   their names; a call of `handle` is one step. What it finds outside is the record `World`: the hosts
--   file and its time, the resolv.conf, and what the other resolvers answer.
-- Control/RateLimit: crates/wsl-control/src/middleware/rate_limit.rs. The mutex is held for the
--   whole of `check_at`, so that a call is one step on the map. Instants and durations are
--   numbers of nanoseconds.
-- Gateway/Peers: crates/wsl-gateway/src/wg.rs. `plan`, `is_managed`, `contains_network` and
--   `same_allowed_ips` under their names; the two loops of `plan` are `plan_desired` and
--   `plan_live`. The crate `ipnetwork` is the parameter `IpNetworks`. Gateway/Peers/Dump: `parse_wg_dump`,
--   and Gateway/Peers/Dumped what `wg` prints for it. `wg` itself is not modelled.
-- Gateway/Apply: crates/wsl-gateway/src/apply.rs, and `validate` and `managed_range` of
--   crates/wsl-gateway/src/config.rs. A round is the list of the commands that it tries to run, whether
--   they start or not; what a command comes to, given the commands before it, is the parameter `Host`.
--   `apply_config` checks the configuration, shows the interface (`live_peers`), has `plan` compare, and
--   goes on with `prepare` (which calls `ensure_interface`), `change_peers` and `apply_firewall`, which
--   loads what Gateway/Firewall renders. The n-th reading of the clock is the argument `clock n`.
-- Gateway/Firewall: crates/wsl-gateway/src/firewall.rs. `render` and `escape_comment` under their names; the
--   text is written from its end (Base/Strings/Lines), Gateway/Firewall/Script reads it line by line, and
--   Gateway/Firewall/Ruleset spells out what it is to be.
-- Types: crates/wsl-types. Base/Net: addresses, and `IpNetwork` as the record `Networks` of what the
--   services use of the crate.
-- Control/Database: the tables of migrations/ as lists of rows, and `Service`, a call that answers or
--   fails and keeps what it wrote in either case, since no service opens a transaction. A statement
--   fails only by a constraint of its table: a lost connection is not modelled, and calls do not
--   interleave. The time of a call and the ids that are made up are arguments.
-- Control/Ipam, Control/Sessions, Control/Gateways: ipam.rs, sessions.rs and gateways.rs of
--   crates/wsl-control/src/services. `create` is `admit` followed by `open_session`; `revoke` goes on
--   with `withdraw`; `heartbeat` answers with `config`. Control/Sessions/Entitlement: what a
--   session needs, in the words of the tables. Control/Sessions/Listing: the lists of sessions.
--   Control/Gateways/History: sequences of the calls of these services.
-- Agent/Profile: crates/wsl-agent/src/profile.rs. `validate` and `normalise` under their names; the
--   loop of `validate` is `check_lines`, which carries its variables in `Progress`, and the `expect`
--   on the last peer is an outcome of its own, `panic`. The crate `base64` and the derivation of a
--   public key are the parameter `KeyTools`.
--
-- Not modelled: the text of durations in policies, the polling loop of crates/wsl-gateway, the sockets
-- of crates/wsl-dns, the directory services, the policies from a git checkout, sign-in, and the agent
-- but for the check of a config. The sockets, commands, HTTP and SQL among them are input and output without a
-- decision of their own; the rest is code that this library does not cover.
mod Base
pub mod Types
pub mod Policy
pub mod Dns
pub mod Control
pub mod Gateway
pub mod Agent
