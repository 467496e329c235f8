-- ===== src/Gateway/Apply/Safety.antt =====
-- Which commands a round of crates/wsl-gateway/src/apply.rs runs.
use wslvpn.Base.{
  ℕ, ◌+◌, ◌≡◌, ◌≢◌, refl, ap, subst, inl, inr, Bool, true, false, Option, none, some, List, [], ◌∷◌,
  ◌++◌, ◌==◌, arith, Bool-cases, Option-cases, if◌then◌else◌, if_both, is_empty, All, Any, All-mono,
}
use wslvpn.Base.Int.{ℤ, earlier}
use wslvpn.Base.Text.{Text}
use wslvpn.Base.Strings.Plain.{All-append}
use wslvpn.Types.{GatewayPeer, GatewayConfig}
use wslvpn.Gateway.Peers.{IpNetworks, LivePeer, ReconcilePlan, is_noop, plan}
use wslvpn.Gateway.Peers.Drawn.{IsDrawn, plan-IsDrawn}
use wslvpn.Gateway.Peers.Removal.{Removable, plan_remove_iff}
use wslvpn.Gateway.Firewall.{render}
use wslvpn.Gateway.Apply.{
  WireGuardSection, is_some, managed_range, Command, show_dump, link_add, set_key, put_peer,
  remove_peer, load_rules, Log, Host, ApplyError, Result, ok, check_peers, live_peers, join_ips,
  ensure_interface, prepare, set_command, then_run, change_peers, writes_adopted_key, rules_of,
  rule_commands, apply_firewall, end_round, apply_plan, apply_config,
}
use wslvpn.Gateway.Apply.Issuing.{
  Issues, Issues-same, Issues-one, Issues-trans, run_each-Issues, then_run-Issues, end_round-Issues,
}

-- A peer of the configuration that passed the checks, at some reading of the clock.
abbrev pub IsChecked : (ℕ → ℤ) → GatewayPeer → Type 0
IsChecked clock peer =
    (peer.public_key ≢ [])
    × (peer.allowed_ips ≢ [])
    × ((n : ℕ) × (earlier peer.expires_at (clock n) ≡ false))

check_peers-IsChecked :
    (clock : ℕ → ℤ) (n : ℕ) (peers : List GatewayPeer)
    → check_peers clock n peers ≡ none
    → All (IsChecked clock) peers
unfolding check_peers
check_peers-IsChecked clock n [] h = tt
check_peers-IsChecked clock n (peer ∷ peers) h =
    elim (Bool-cases (earlier peer.expires_at (clock n))) [
      | inl e ↦ ground (arith, e)
      | inr e ↦
          let ready : check_peers clock (n + 1) peers ≡ none = ground (arith, e) in
          let keyed : is_empty peer.public_key ≡ false = ground (arith, e) in
          let routed : is_empty peer.allowed_ips ≡ false = ground (arith, e) in
          (
            ((λ nil. cc (keyed, ap is_empty nil)), (λ nil. cc (routed, ap is_empty nil)), (n, e)),
            check_peers-IsChecked clock (n + 1) peers ready,
          )
    ]

members : {A : Type 0} (peers : List A) → All (λ p. Any (λ q. q ≡ p) peers) peers
members [] = tt
members (peer ∷ peers) = (inl refl, All-mono (λ p h. inr h) peers (members peers))

All-pair :
    {A : Type 0} (P Q : A → Type 0) (xs : List A) → All P xs → All Q xs → All (λ x. P x × Q x) xs
All-pair P Q [] h k = tt
All-pair P Q (x ∷ xs) h k = ((h.0, k.0), All-pair P Q xs h.1 k.1)

-- What a round may do to the hub, command by command. `view` is what the interface shows.
module _ (nets : IpNetworks) (clock : ℕ → ℤ) (cfg : WireGuardSection) (config : GatewayConfig)
    (key : Option Text) (view : List LivePeer) where
  abbrev pub range : Option nets.Network
  range = managed_range nets cfg config.private_network_cidr

  abbrev pub Owns : Type 0
  Owns = (cfg.manage_interface ≡ true) × (cfg.adopt_existing ≡ false)

  abbrev pub IsAllowed : Command → Type 0
  IsAllowed (show_dump interface) = interface ≡ cfg.interface
  IsAllowed (link_add interface) = (interface ≡ cfg.interface) × Owns
  IsAllowed (set_key interface port private) =
      (interface ≡ cfg.interface) × (port ≡ config.listen_port) × (key ≡ some private) × Owns
  IsAllowed (put_peer interface public_key ips) =
      (interface ≡ cfg.interface)
      × (cfg.manage_interface ≡ true)
      × ((peer : GatewayPeer) × Any (λ p. p ≡ peer) config.peers
          × IsChecked clock peer
          × (public_key ≡ peer.public_key)
          × (ips ≡ join_ips peer.allowed_ips))
  IsAllowed (remove_peer interface public_key) =
      (interface ≡ cfg.interface)
      × (cfg.manage_interface ≡ true)
      × Any (Removable nets config.peers range public_key) view
  IsAllowed (load_rules script) =
      (cfg.manage_interface ≡ true)
      × ((net : nets.Network) × (range ≡ some net)
          × (render config.services config.routes (some (nets.to_string net)) ≡ some script))

  abbrev Allowed : Log → Log → Type 0
  Allowed = Issues IsAllowed

  ensure_interface-Allowed :
      (host : Host) (log : Log)
      → Owns
      → (given : Option Text) → key ≡ given
      → Allowed log (ensure_interface host cfg config given log).1
  unfolding ensure_interface
  ensure_interface-Allowed host log owns none same = Issues-one IsAllowed log _ (refl, owns)
  ensure_interface-Allowed host log owns (some private) same =
      Issues-trans IsAllowed log _ _
        (Issues-one IsAllowed log (link_add cfg.interface) (refl, owns))
        (Issues-one IsAllowed _ (set_key cfg.interface config.listen_port private)
          (refl, refl, same, owns))

  adopt-Allowed :
      (host : Host) (log : Log) (adopts : Bool)
      → cfg.manage_interface ≡ true
      → cfg.adopt_existing ≡ adopts
      → Allowed log
          (if adopts
            then (if is_some key
                then (some (writes_adopted_key cfg.interface), log)
                else (none, log))
            else ensure_interface host cfg config key log).1
  adopt-Allowed host log true m e =
      if_both (λ (r : Option ApplyError × Log). Allowed log r.1) (is_some key) _ _
        (Issues-same IsAllowed log) (Issues-same IsAllowed log)
  adopt-Allowed host log false m e = ensure_interface-Allowed host log (m, e) key refl

  prepare-Allowed :
      (host : Host) (log : Log)
      → cfg.manage_interface ≡ true
      → Allowed log (prepare host cfg config key log).1
  unfolding prepare
  prepare-Allowed host log m = adopt-Allowed host log cfg.adopt_existing m refl

  change_peers-Allowed :
      (host : Host) (wanted : ReconcilePlan) (log : Log)
      → IsDrawn (λ peer. IsAllowed (set_command cfg.interface peer)) wanted
      → All (λ k. IsAllowed (remove_peer cfg.interface k)) wanted.remove
      → Allowed log (change_peers host cfg.interface wanted log).1
  unfolding change_peers
  change_peers-Allowed host wanted log sets removes = elim (Bool-cases (is_noop wanted)) [
    | inl e ↦ rw e (Issues-same IsAllowed log)
    | inr e ↦ rw e (
        then_run-Issues IsAllowed log _ _
          (run_each-Issues IsAllowed host (set_command cfg.interface) _
            (wanted.add ++ wanted.update) log (All-append _ wanted.add wanted.update sets.0 sets.1))
          (λ l.
            run_each-Issues IsAllowed host (remove_peer cfg.interface) _ wanted.remove l removes))
  ]

  rule_commands-IsAllowed :
      (managed : Option nets.Network)
      → cfg.manage_interface ≡ true
      → range ≡ managed
      → All IsAllowed (rule_commands (rules_of nets config managed))
  unfolding render
  rule_commands-IsAllowed none m e = tt
  rule_commands-IsAllowed (some net) m e = ((m, (net, e, refl)), tt)

  apply_firewall-Allowed :
      (log : Log) → cfg.manage_interface ≡ true → Allowed log (apply_firewall nets config range log)
  unfolding apply_firewall
  apply_firewall-Allowed log m =
      (rule_commands (rules_of nets config range), refl, rule_commands-IsAllowed range m refl)

  removals-IsAllowed :
      cfg.manage_interface ≡ true
      → All
          (λ k. IsAllowed (remove_peer cfg.interface k))
          (plan nets config.peers view range).remove
  removals-IsAllowed m =
      All-mono (λ k h. (refl, m, (plan_remove_iff nets config.peers view range k).0 h)) _
        (members (plan nets config.peers view range).remove)

  sets-IsAllowed :
      cfg.manage_interface ≡ true
      → All (IsChecked clock) config.peers
      → IsDrawn
          (λ peer. IsAllowed (set_command cfg.interface peer))
          (plan nets config.peers view range)
  sets-IsAllowed m checked =
      plan-IsDrawn (λ peer. IsAllowed (set_command cfg.interface peer)) nets config.peers view range
        (All-mono (λ peer h. (refl, m, (peer, h.0, h.1, refl, refl))) config.peers
          (All-pair _ _ config.peers (members config.peers) checked))

  managing-Allowed :
      (host : Host) (count : ℕ) (log : Log)
      → cfg.manage_interface ≡ true
      → All (IsChecked clock) config.peers
      → Allowed log
          (end_round count (apply_firewall nets config range) (
            then_run
              (prepare host cfg config key log)
              (change_peers host cfg.interface (plan nets config.peers view range)))).1
  managing-Allowed host count log m checked =
      end_round-Issues IsAllowed log count _ _
        (then_run-Issues IsAllowed log _ _ (prepare-Allowed host log m)
          (λ l. change_peers-Allowed host _ l (sets-IsAllowed m checked) (removals-IsAllowed m)))
        (λ l. apply_firewall-Allowed l m)

  round-Allowed :
      (host : Host) (count : ℕ) (log : Log) (manages : Bool)
      → cfg.manage_interface ≡ manages
      → All (IsChecked clock) config.peers
      → Allowed log
          (if manages
            then end_round count (apply_firewall nets config range) (
                then_run
                  (prepare host cfg config key log)
                  (change_peers host cfg.interface (plan nets config.peers view range)))
            else (ok count, log)).1
  round-Allowed host count log true m checked = managing-Allowed host count log m checked
  round-Allowed host count log false m checked = Issues-same IsAllowed log

apply_plan-Issues :
    (nets : IpNetworks) (host : Host) (clock : ℕ → ℤ) (cfg : WireGuardSection)
    (config : GatewayConfig) (key : Option Text) (log : Log)
    → All (IsChecked clock) config.peers
    → Issues
        (IsAllowed nets clock cfg config key (live_peers host cfg.interface log))
        log
        (apply_plan nets host cfg config key log).1
unfolding apply_plan
apply_plan-Issues nets host clock cfg config key log checked =
    let view = live_peers host cfg.interface log in
    Issues-trans _ log _ _
      (Issues-one (IsAllowed nets clock cfg config key view) log (show_dump cfg.interface) refl)
      (round-Allowed nets clock cfg config key view host _ (log ++ show_dump cfg.interface ∷ [])
        cfg.manage_interface refl checked)

-- Whatever the commands answer, each command of a round is one that it may run. Without
-- `manage_interface` that is showing the interface only. On an adopted interface no link is added
-- and no key or port is set. A peer is set only if the configuration has it, with a key, with
-- addresses and, at a reading of the clock, not expired; it is set to its own addresses. A peer is
-- removed only if the interface shows it, with addresses that are all inside the managed range,
-- and the configuration has no peer with its key. Rules are loaded only for a known range, as
-- `render` writes them.
pub apply_config-Issues :
    (nets : IpNetworks) (host : Host) (clock : ℕ → ℤ) (cfg : WireGuardSection)
    (config : GatewayConfig) (key : Option Text) (log : Log)
    → Issues
        (IsAllowed nets clock cfg config key (live_peers host cfg.interface log))
        log
        (apply_config nets host clock cfg config key log).1
unfolding apply_config
apply_config-Issues nets host clock cfg config key log =
    elim (Bool-cases (config.listen_port == 0)) [
      | inl e ↦ rw (e, apply_config) (Issues-same _ log)
      | inr e ↦ elim (Option-cases (check_peers clock 0 config.peers)) [
        | inl c ↦
            let opened : apply_plan nets host cfg config key log
                ≡ apply_config nets host clock cfg config key log =
              rw (e, c, apply_config) refl in
            subst
              (λ (r : Result ℕ × Log).
                Issues (IsAllowed nets clock cfg config key (live_peers host cfg.interface log)) log
                  r.1)
              opened
              (apply_plan-Issues nets host clock cfg config key log
                (check_peers-IsChecked clock 0 config.peers c))
        | inr (stop, c) ↦ rw (e, c, apply_config) (Issues-same _ log)
      ]
    ]
