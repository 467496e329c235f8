-- ===== src/Gateway/Apply/Rounds.antt =====
-- A whole round of crates/wsl-gateway/src/apply.rs: its commands in their order.
use mathlib.Core.List.{append-nil, append_assoc}
use wslvpn.Base.{
  ℕ, ◌≡◌, refl, sym, ap, ◌∙◌, inl, inr, Bool, true, false, ◌&&◌, Option, none, some, List, [], ◌∷◌,
  ◌++◌, map, ◌==◌, Bool-cases, Option-cases, if◌then◌else◌, is_empty, length,
}
use wslvpn.Base.Int.{ℤ}
use wslvpn.Base.Text.{Text}
use wslvpn.Types.{GatewayPeer, GatewayConfig}
use wslvpn.Gateway.Peers.{IpNetworks, ReconcilePlan, desired_count, is_noop}
use wslvpn.Gateway.Peers.Additions.{plan-desired_count}
use wslvpn.Gateway.Apply.{
  WireGuardSection, is_some, managed_range, Command, show_dump, link_add, set_key, remove_peer,
  Outcome, Log, Host, ApplyError, writes_adopted_key, Result, ok, check_peers, ensure_interface,
  prepare, run_each, set_command, then_run, change_peers, rules_of, rule_commands, apply_firewall,
  round_plan, end_round, apply_plan, apply_config,
}

-- The commands of a round, in order.
abbrev pub key_commands : WireGuardSection → GatewayConfig → Option Text → Log
key_commands cfg config none = []
key_commands cfg config (some key) = set_key cfg.interface config.listen_port key ∷ []

abbrev pub interface_commands : WireGuardSection → GatewayConfig → Option Text → Log
interface_commands cfg config key =
    if cfg.adopt_existing then [] else link_add cfg.interface ∷ key_commands cfg config key

abbrev pub peer_commands : Text → ReconcilePlan → Log
peer_commands interface wanted =
    map (set_command interface) (wanted.add ++ wanted.update)
    ++ map (remove_peer interface) wanted.remove

abbrev pub managing_commands :
    (nets : IpNetworks) → WireGuardSection → GatewayConfig → Option Text → ReconcilePlan → Log
managing_commands nets cfg config key wanted =
    interface_commands cfg config key
    ++ (peer_commands cfg.interface wanted
        ++ rule_commands
            (rules_of nets config (managed_range nets cfg config.private_network_cidr)))

abbrev pub round_commands :
    (nets : IpNetworks) → WireGuardSection → GatewayConfig → Option Text → ReconcilePlan → Log
round_commands nets cfg config key wanted =
    show_dump cfg.interface
    ∷ (if cfg.manage_interface then managing_commands nets cfg config key wanted else [])

run_each-none :
    {A : Type 0} (host : Host) (command : A → Command) (error_of : A → Outcome → Option ApplyError)
    (xs : List A) (log : Log)
    → (run_each host command error_of xs log).0 ≡ none
    → (run_each host command error_of xs log).1 ≡ log ++ map command xs
unfolding run_each
run_each-none host command error_of [] log = λ h. sym (append-nil log)
run_each-none host command error_of (x ∷ xs) log =
    elim (Option-cases (error_of x (host log (command x)))) [
      | inl e ↦
          rw (e, run_each)
            (λ h.
              run_each-none host command error_of xs (log ++ command x ∷ []) h
              ∙ append_assoc log (command x ∷ []) (map command xs))
      | inr (stop, e) ↦ rw (e, run_each) (λ h. cc)
    ]

then_run-none :
    (r : Option ApplyError × Log) (f : Log → Option ApplyError × Log)
    → (then_run r f).0 ≡ none
    → (r.0 ≡ none) × ((f r.1).0 ≡ none) × ((then_run r f).1 ≡ (f r.1).1)
then_run-none (some e, l) f h = cc
then_run-none (none, l) f h = (refl, h, refl)

end_round-ok :
    (count : ℕ) (rules : Log → Log) (r : Option ApplyError × Log) (n : ℕ)
    → (end_round count rules r).0 ≡ ok n
    → (r.0 ≡ none) × (n ≡ count) × ((end_round count rules r).1 ≡ rules r.1)
unfolding end_round
end_round-ok count rules (some e, l) n h = cc
end_round-ok count rules (none, l) n h = (refl, cc, refl)

noop_lists :
    (interface : Text) (adds updates : List GatewayPeer) (removes : List Text)
    → (is_empty adds && is_empty updates && is_empty removes) ≡ true
    → map (set_command interface) (adds ++ updates) ++ map (remove_peer interface) removes ≡ []
noop_lists interface [] [] [] h = refl
noop_lists interface [] [] (key ∷ removes) h = cc
noop_lists interface [] (peer ∷ updates) removes h = cc
noop_lists interface (peer ∷ adds) updates removes h = cc

noop_commands :
    (interface : Text) (wanted : ReconcilePlan)
    → is_noop wanted ≡ true
    → peer_commands interface wanted ≡ []
unfolding is_noop
noop_commands interface wanted h = noop_lists interface wanted.add wanted.update wanted.remove h

change_peers-none :
    (host : Host) (interface : Text) (wanted : ReconcilePlan) (log : Log)
    → (change_peers host interface wanted log).0 ≡ none
    → (change_peers host interface wanted log).1 ≡ log ++ peer_commands interface wanted
unfolding change_peers
change_peers-none host interface wanted log = elim (Bool-cases (is_noop wanted)) [
  | inl e ↦ rw (e, noop_commands interface wanted e) (λ h. sym (append-nil log))
  | inr e ↦ rw e (λ h.
      let sets = map (set_command interface) (wanted.add ++ wanted.update) in
      let (set_done, removed, same) = then_run-none _ _ h in
      same
      ∙ run_each-none host (remove_peer interface) _ wanted.remove _ removed
      ∙ ap (λ l. l ++ map (remove_peer interface) wanted.remove)
          (run_each-none host (set_command interface) _ (wanted.add ++ wanted.update) log set_done)
      ∙ append_assoc log sets (map (remove_peer interface) wanted.remove))
]

key_commands-append :
    (host : Host) (cfg : WireGuardSection) (config : GatewayConfig) (key : Option Text) (log : Log)
    → (ensure_interface host cfg config key log).1
      ≡ log ++ link_add cfg.interface ∷ key_commands cfg config key
unfolding ensure_interface
key_commands-append host cfg config none log = refl
key_commands-append host cfg config (some key) log =
    append_assoc log (link_add cfg.interface ∷ []) _

-- An adopted interface is prepared without a key only.
abbrev pub IsKeyless : WireGuardSection → Option Text → Type 0
IsKeyless cfg key = cfg.adopt_existing ≡ true → key ≡ none

is_some-false : {A : Type 0} (a : Option A) → is_some a ≡ false → a ≡ none
is_some-false none h = refl
is_some-false (some a) h = cc

prepare-none :
    (host : Host) (cfg : WireGuardSection) (config : GatewayConfig) (key : Option Text) (log : Log)
    → (prepare host cfg config key log).0 ≡ none
    → ((prepare host cfg config key log).1 ≡ log ++ interface_commands cfg config key)
      × IsKeyless cfg key
unfolding prepare
prepare-none host cfg config key log = adopted cfg.adopt_existing
  where
    adopted :
        (adopts : Bool)
        → (if adopts
            then (if is_some key
                then (some (writes_adopted_key cfg.interface), log)
                else (none, log))
            else ensure_interface host cfg config key log).0
          ≡ none
        → ((if adopts
              then (if is_some key
                  then (some (writes_adopted_key cfg.interface), log)
                  else (none, log))
              else ensure_interface host cfg config key log).1
            ≡ log ++ (if adopts then [] else link_add cfg.interface ∷ key_commands cfg config key))
          × (adopts ≡ true → key ≡ none)
    adopted true = elim (Bool-cases (is_some key)) [
      | inl e ↦ rw e (λ h. cc)
      | inr e ↦ rw e (λ h. (sym (append-nil log), λ _. is_some-false key e))
    ]
    adopted false = λ h. (key_commands-append host cfg config key log, λ e. cc)

module _ (nets : IpNetworks) (host : Host) (cfg : WireGuardSection) (config : GatewayConfig)
    (key : Option Text) where
  abbrev managing_round : ReconcilePlan → Log → Result ℕ × Log
  managing_round wanted log =
      end_round (desired_count wanted)
        (apply_firewall nets config (managed_range nets cfg config.private_network_cidr))
        (then_run (prepare host cfg config key log) (change_peers host cfg.interface wanted))

  managing_round-ok :
      (wanted : ReconcilePlan) (log : Log) (n : ℕ)
      → (managing_round wanted log).0 ≡ ok n
      → (n ≡ desired_count wanted)
        × ((managing_round wanted log).1 ≡ log ++ managing_commands nets cfg config key wanted)
        × IsKeyless cfg key
  unfolding apply_firewall
  managing_round-ok wanted log n h =
      let first = interface_commands cfg config key in
      let second = peer_commands cfg.interface wanted in
      let rules =
        rule_commands (rules_of nets config (managed_range nets cfg config.private_network_cidr)) in
      let (ran, count, same) = end_round-ok (desired_count wanted) _ _ n h in
      let (prepared, changed, same') =
        then_run-none (prepare host cfg config key log) (change_peers host cfg.interface wanted)
          ran in
      let (log1, keyless) = prepare-none host cfg config key log prepared in
      (
        count,
        same
            ∙ ap (λ l. l ++ rules)
                (same'
                  ∙ change_peers-none host cfg.interface wanted _ changed
                  ∙ ap (λ l. l ++ second) log1)
            ∙ append_assoc (log ++ first) second rules
            ∙ append_assoc log first (second ++ rules),
        keyless,
      )

  round-ok :
      (wanted : ReconcilePlan) (log : Log) (n : ℕ) (manages : Bool)
      → (if manages then managing_round wanted log else (ok (desired_count wanted), log)).0 ≡ ok n
      → (n ≡ desired_count wanted)
        × ((if manages then managing_round wanted log else (ok (desired_count wanted), log)).1
            ≡ log ++ (if manages then managing_commands nets cfg config key wanted else []))
        × (manages ≡ true → IsKeyless cfg key)
  round-ok wanted log n true h =
      let (count, same, keyless) = managing_round-ok wanted log n h in (count, same, λ _. keyless)
  round-ok wanted log n false h = (cc, sym (append-nil log), λ e. cc)

  apply_plan-ok :
      (log : Log) (n : ℕ)
      → (apply_plan nets host cfg config key log).0 ≡ ok n
      → (n ≡ length config.peers)
        × ((apply_plan nets host cfg config key log).1
            ≡ log ++ round_commands nets cfg config key (round_plan nets host cfg config log))
        × (cfg.manage_interface ≡ true → IsKeyless cfg key)
  unfolding apply_plan
  apply_plan-ok log n h =
      let wanted = round_plan nets host cfg config log in
      let (count, same, keyless) =
        round-ok wanted (log ++ show_dump cfg.interface ∷ []) n cfg.manage_interface h in
      (
        count ∙ plan-desired_count nets config.peers _ _,
        same ∙ append_assoc log (show_dump cfg.interface ∷ []) _,
        keyless,
      )

  -- A round that answers `n` has wanted `n` peers on the wire, and it has run exactly these commands,
  -- in this order: the one that shows the interface and, with `manage_interface`, those that add
  -- the link and, given a key, set it with the port, unless the interface is adopted; one for each
  -- peer to add, one for each to update and one for each key to remove, as the plan for the shown
  -- interface lists them; and the one that loads the rules if a range is known. Where it manages
  -- an adopted interface, it was given no key.
  pub apply_config-ok :
      (clock : ℕ → ℤ) (log : Log) (n : ℕ)
      → (apply_config nets host clock cfg config key log).0 ≡ ok n
      → (n ≡ length config.peers)
        × ((apply_config nets host clock cfg config key log).1
            ≡ log ++ round_commands nets cfg config key (round_plan nets host cfg config log))
        × (cfg.manage_interface ≡ true → IsKeyless cfg key)
  unfolding apply_config
  apply_config-ok clock log n = elim (Bool-cases (config.listen_port == 0)) [
    | inl e ↦ rw (e, apply_config) (λ h. cc)
    | inr e ↦ elim (Option-cases (check_peers clock 0 config.peers)) [
      | inl c ↦ rw (e, c, apply_config) (apply_plan-ok log n)
      | inr (stop, c) ↦ rw (e, c, apply_config) (λ h. cc)
    ]
  ]
