-- ===== src/Gateway/Apply.antt =====
-- crates/wsl-gateway/src/apply.rs and the checks of crates/wsl-gateway/src/config.rs: the commands that
-- one round tries to run on the hub. A command is a value; `Host` answers it, given those before it.
pub mod Issuing
pub mod Safety
pub mod Rounds
pub mod Progress
mod Runs
use wslvpn.Base.{
  ℕ, ◌+◌, Bool, true, false, Option, none, some, List, [], ◌∷◌, ◌++◌, ◌==◌, if◌then◌else◌, is_empty,
}
use wslvpn.Base.Int.{ℤ, earlier}
use wslvpn.Base.Text.{Text}
use wslvpn.Base.Strings.{from_utf8_lossy}
use wslvpn.Types.{GatewayPeer, GatewayConfig}
use wslvpn.Gateway.Peers.{IpNetworks, LivePeer, ReconcilePlan, desired_count, is_noop, plan}
use wslvpn.Gateway.Peers.Dump.{parse_wg_dump}
use wslvpn.Gateway.Firewall.{render}

pub record WireGuardSection : Type 0 where
  pub interface : Text
  pub manage_interface : Bool
  pub adopt_existing : Bool
  pub state_dir : Text
  pub public_key : Option Text
  pub managed_range : Option Text

pub data ConfigError : Type 0 where
  adopts_without_key : ConfigError
  invalid_range : Text → ConfigError

abbrev pub is_some : {A : Type 0} → Option A → Bool
is_some none = false
is_some (some a) = true

pub check_range : IpNetworks → Option Text → Option ConfigError
check_range nets none = none
check_range nets (some range) =
    if is_some (nets.parse range) then none else some (invalid_range range)

-- `none` is success.
pub validate : IpNetworks → WireGuardSection → Option ConfigError
validate nets cfg =
    if cfg.adopt_existing
    then if is_some cfg.public_key
      then check_range nets cfg.managed_range
      else some adopts_without_key
    else check_range nets cfg.managed_range

abbrev pub and_then : {A B : Type 0} → Option A → (A → Option B) → Option B
and_then none f = none
and_then (some a) f = f a

abbrev pub or_else : {A : Type 0} → Option A → Option A → Option A
or_else none b = b
or_else (some a) b = some a

pub managed_range : (nets : IpNetworks) → WireGuardSection → Text → Option nets.Network
managed_range nets cfg control_cidr =
    or_else (and_then cfg.managed_range nets.parse) (nets.parse control_cidr)

pub data Command : Type 0 where
  show_dump : Text → Command
  link_add : Text → Command
  set_key : Text → ℕ → Text → Command
  put_peer : Text → Text → Text → Command
  remove_peer : Text → Text → Command
  load_rules : Text → Command

-- What a command comes to: it did not start, it stopped reading its input, it failed, or it
-- succeeded with an output.
pub data Outcome : Type 0 where
  not_started : Outcome
  broken_pipe : Outcome
  failed : Outcome
  printed : List ℕ → Outcome

abbrev pub Log : Type 0
Log = List Command

abbrev pub Host : Type 0
Host = Log → Command → Outcome

pub data ApplyError : Type 0 where
  invalid_listen_port : ApplyError
  missing_public_key : ApplyError
  missing_allowed_ips : ApplyError
  expired_peer : ℕ → ApplyError
  writes_adopted_key : Text → ApplyError
  not_run : ApplyError
  key_not_written : ApplyError
  set_peer_failed : Text → ApplyError
  remove_failed : Text → ApplyError

pub data Result (A : Type 0) : Type 0 where
  ok : A → Result A
  err : ApplyError → Result A

-- The checks on the peers. The clock is read once for each.
pub check_peers : (ℕ → ℤ) → ℕ → List GatewayPeer → Option ApplyError
check_peers clock n [] = none
check_peers clock n (peer ∷ peers) =
    let rest = check_peers clock (n + 1) peers in
    if is_empty peer.public_key
    then some missing_public_key
    else if is_empty peer.allowed_ips
    then some missing_allowed_ips
    else if earlier peer.expires_at (clock n)
    then some (expired_peer peer.peer_id)
    else rest

-- `live_peers`, and the empty view that takes the place of an error.
pub live_peers : Host → Text → Log → List LivePeer
live_peers host interface log = elim (host log (show_dump interface)) [
  | not_started ↦ []
  | broken_pipe ↦ []
  | failed ↦ []
  | printed output ↦ parse_wg_dump (from_utf8_lossy output)
]

-- `allowed_ips.join(",")`.
abbrev pub join_ips : List Text → Text
join_ips [] = []
join_ips (ip ∷ []) = ip
join_ips (ip ∷ (next ∷ ips)) = ip ++ (b',' ∷ join_ips (next ∷ ips))

abbrev pub key_error : Outcome → Option ApplyError
key_error not_started = none
key_error broken_pipe = some key_not_written
key_error failed = none
key_error (printed output) = none

pub ensure_interface :
    Host → WireGuardSection → GatewayConfig → Option Text → Log → Option ApplyError × Log
ensure_interface host cfg config none log = (none, log ++ link_add cfg.interface ∷ [])
ensure_interface host cfg config (some key) log =
    let linked = log ++ link_add cfg.interface ∷ [] in
    let command = set_key cfg.interface config.listen_port key in
    (key_error (host linked command), linked ++ command ∷ [])

-- Before the peers: an adopted interface is left as it is.
pub prepare : Host → WireGuardSection → GatewayConfig → Option Text → Log → Option ApplyError × Log
prepare host cfg config key log =
    if cfg.adopt_existing
    then (if is_some key then (some (writes_adopted_key cfg.interface), log) else (none, log))
    else ensure_interface host cfg config key log

-- A command for each element of a list, up to the first that does not succeed.
pub run_each :
    {A : Type 0}
    → Host
    → (A → Command)
    → (A → Outcome → Option ApplyError)
    → List A
    → Log
    → Option ApplyError × Log
run_each host command error_of [] log = (none, log)
run_each host command error_of (x ∷ xs) log = elim (error_of x (host log (command x))) [
  | some e ↦ (some e, log ++ command x ∷ [])
  | none ↦ run_each host command error_of xs (log ++ command x ∷ [])
]

abbrev pub status_error : ApplyError → Outcome → Option ApplyError
status_error e not_started = some not_run
status_error e broken_pipe = some not_run
status_error e failed = some e
status_error e (printed output) = none

abbrev pub set_command : Text → GatewayPeer → Command
set_command interface peer = put_peer interface peer.public_key (join_ips peer.allowed_ips)

abbrev pub then_run :
    Option ApplyError × Log → (Log → Option ApplyError × Log) → Option ApplyError × Log
then_run (some e, log) f = (some e, log)
then_run (none, log) f = f log

pub change_peers : Host → Text → ReconcilePlan → Log → Option ApplyError × Log
change_peers host interface wanted log =
    if is_noop wanted
    then (none, log)
    else then_run
        (run_each host (set_command interface)
          (λ peer. status_error (set_peer_failed peer.public_key)) (wanted.add ++ wanted.update)
          log)
        (run_each host (remove_peer interface) (λ key. status_error (remove_failed key))
          wanted.remove)

-- `none` where no range is known: the rules that are loaded stay. What `nft` answers changes nothing.
abbrev pub range_text : (nets : IpNetworks) → Option nets.Network → Option Text
range_text nets none = none
range_text nets (some range) = some (nets.to_string range)

abbrev pub rules_of : (nets : IpNetworks) → GatewayConfig → Option nets.Network → Option Text
rules_of nets config managed = render config.services config.routes (range_text nets managed)

abbrev pub rule_commands : Option Text → Log
rule_commands none = []
rule_commands (some script) = load_rules script ∷ []

pub apply_firewall : (nets : IpNetworks) → GatewayConfig → Option nets.Network → Log → Log
apply_firewall nets config managed log = log ++ rule_commands (rules_of nets config managed)

-- The plan of the round, from what the interface shows.
abbrev pub round_plan : IpNetworks → Host → WireGuardSection → GatewayConfig → Log → ReconcilePlan
round_plan nets host cfg config log =
    plan nets config.peers (live_peers host cfg.interface log)
      (managed_range nets cfg config.private_network_cidr)

pub end_round : ℕ → (Log → Log) → Option ApplyError × Log → Result ℕ × Log
end_round count rules (some e, log) = (err e, log)
end_round count rules (none, log) = (ok count, rules log)

pub apply_plan :
    IpNetworks → Host → WireGuardSection → GatewayConfig → Option Text → Log → Result ℕ × Log
apply_plan nets host cfg config key log =
    let managed = managed_range nets cfg config.private_network_cidr in
    let wanted = round_plan nets host cfg config log in
    let shown = log ++ show_dump cfg.interface ∷ [] in
    if cfg.manage_interface
    then end_round (desired_count wanted) (apply_firewall nets config managed)
        (then_run (prepare host cfg config key shown) (change_peers host cfg.interface wanted))
    else (ok (desired_count wanted), shown)

pub apply_config :
    IpNetworks
    → Host
    → (ℕ → ℤ)
    → WireGuardSection
    → GatewayConfig
    → Option Text
    → Log
    → Result ℕ × Log
apply_config nets host clock cfg config key log =
    if config.listen_port == 0
    then (err invalid_listen_port, log)
    else elim (check_peers clock 0 config.peers) [
      | some e ↦ (err e, log)
      | none ↦ apply_plan nets host cfg config key log
    ]
