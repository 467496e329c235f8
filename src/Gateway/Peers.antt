-- ===== src/Gateway/Peers.antt =====
-- crates/wsl-gateway/src/wg.rs: which peers of a WireGuard interface to add, change, keep, remove and
-- leave alone. The crate `ipnetwork` is a parameter; keys and addresses are texts, and a map that is
-- collected from a list keeps the last value of a key.
pub mod Removal
pub mod Additions
pub mod Drawn
pub mod Dump
pub mod Dumped
mod Runs
use wslvpn.Base.{
  ℕ, ◌+◌, Bool, true, false, not, ◌&&◌, Option, none, some, List, [], ◌∷◌, ◌++◌, leb, if◌then◌else◌,
  length, is_empty, any, all,
}
use wslvpn.Base.Text.{Text, text_eq}
use wslvpn.Base.Sorting.{sort, dedup}
pub use wslvpn.Types.{GatewayPeer}

-- What the source uses of `ipnetwork::IpNetwork`: its text, its family, and its range.
pub record IpNetworks : Type 1 where
  pub Network : Type 0
  pub Address : Type 0
  pub parse : Text → Option Network
  pub to_string : Network → Text
  pub is_v4 : Network → Bool
  pub prefix : Network → ℕ
  pub network : Network → Address
  pub contains : Network → Address → Bool

pub record LivePeer : Type 0 where
  pub public_key : Text
  pub allowed_ips : List Text

pub record ReconcilePlan : Type 0 where
  pub add : List GatewayPeer
  pub update : List GatewayPeer
  pub unchanged : List GatewayPeer
  pub remove : List Text
  pub foreign : List Text

pub desired_count : ReconcilePlan → ℕ
desired_count plan = length plan.add + length plan.update + length plan.unchanged

unfoldable pub is_noop : ReconcilePlan → Bool
is_noop plan = is_empty plan.add && is_empty plan.update && is_empty plan.remove

-- The families agree, the prefix is no shorter, and the first address is in the range.
pub contains_network : (nets : IpNetworks) → nets.Network → nets.Network → Bool
contains_network nets outer inner =
    if nets.is_v4 outer
    then nets.is_v4 inner
      && leb (nets.prefix outer) (nets.prefix inner)
      && nets.contains outer (nets.network inner)
    else not (nets.is_v4 inner)
      && leb (nets.prefix outer) (nets.prefix inner)
      && nets.contains outer (nets.network inner)

abbrev pub inside : (nets : IpNetworks) → nets.Network → Text → Bool
inside nets managed raw = elim (nets.parse raw) [
  | none ↦ false
  | some net ↦ contains_network nets managed net
]

pub is_managed : (nets : IpNetworks) → LivePeer → nets.Network → Bool
is_managed nets peer managed =
    if is_empty peer.allowed_ips then false else all (inside nets managed) peer.allowed_ips

pub parse_all : IpNetworks → List Text → Option (List Text)
parse_all nets [] = some []
parse_all nets (ip ∷ ips) = elim (nets.parse ip) [
  | none ↦ none
  | some net ↦ elim (parse_all nets ips) [
    | none ↦ none
    | some out ↦ some (nets.to_string net ∷ out)
  ]
]

pub normalise : IpNetworks → List Text → Option (List Text)
normalise nets ips = elim (parse_all nets ips) [ none ↦ none | some out ↦ some (dedup (sort out)) ]

pub texts_eq : List Text → List Text → Bool
texts_eq [] [] = true
texts_eq [] (_ ∷ _) = false
texts_eq (_ ∷ _) [] = false
texts_eq (s ∷ ss) (t ∷ ts) = text_eq s t && texts_eq ss ts

pub same_allowed_ips : IpNetworks → List Text → List Text → Bool
same_allowed_ips nets desired live = elim (normalise nets desired) [
  | none ↦ false
  | some a ↦ elim (normalise nets live) [ none ↦ false | some b ↦ texts_eq a b ]
]

-- `live_by_key.get(key)`.
pub live_by_key : List LivePeer → Text → Option LivePeer
live_by_key [] key = none
live_by_key (peer ∷ live) key = elim (live_by_key live key) [
  | some later ↦ some later
  | none ↦ if text_eq peer.public_key key then some peer else none
]

-- `desired_keys.contains_key(key)`.
pub has_key : List GatewayPeer → Text → Bool
has_key desired key = any (λ peer. text_eq peer.public_key key) desired

-- One round of the loop over the desired peers.
pub sort_desired : IpNetworks → List LivePeer → GatewayPeer → ReconcilePlan → ReconcilePlan
sort_desired nets live peer plan = elim (live_by_key live peer.public_key) [
  | none ↦ record plan { add = plan.add ++ peer ∷ [] }
  | some existing ↦ elim (same_allowed_ips nets peer.allowed_ips existing.allowed_ips) [
    | true ↦ record plan { unchanged = plan.unchanged ++ peer ∷ [] }
    | false ↦ record plan { update = plan.update ++ peer ∷ [] }
  ]
]

pub plan_desired : IpNetworks → List LivePeer → List GatewayPeer → ReconcilePlan → ReconcilePlan
plan_desired nets live [] plan = plan
plan_desired nets live (peer ∷ desired) plan =
    plan_desired nets live desired (sort_desired nets live peer plan)

abbrev pub in_range : (nets : IpNetworks) → Option nets.Network → LivePeer → Bool
in_range nets none peer = false
in_range nets (some range) peer = is_managed nets peer range

-- One round of the loop over the live peers.
pub sort_live :
    (nets : IpNetworks)
    → List GatewayPeer
    → Option nets.Network
    → LivePeer
    → ReconcilePlan
    → ReconcilePlan
sort_live nets desired managed peer plan = elim (has_key desired peer.public_key) [
  | true ↦ plan
  | false ↦ elim (in_range nets managed peer) [
    | true ↦ record plan { remove = plan.remove ++ peer.public_key ∷ [] }
    | false ↦ record plan { foreign = plan.foreign ++ peer.public_key ∷ [] }
  ]
]

pub plan_live :
    (nets : IpNetworks)
    → List GatewayPeer
    → Option nets.Network
    → List LivePeer
    → ReconcilePlan
    → ReconcilePlan
plan_live nets desired managed [] plan = plan
plan_live nets desired managed (peer ∷ live) plan =
    plan_live nets desired managed live (sort_live nets desired managed peer plan)

abbrev pub empty_plan : ReconcilePlan
empty_plan = record { add = []; update = []; unchanged = []; remove = []; foreign = [] }

pub plan :
    (nets : IpNetworks) → List GatewayPeer → List LivePeer → Option nets.Network → ReconcilePlan
plan nets desired live managed =
    plan_live nets desired managed live (plan_desired nets live desired empty_plan)
