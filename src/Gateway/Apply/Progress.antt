-- ===== src/Gateway/Apply/Progress.antt =====
-- When a round of crates/wsl-gateway/src/apply.rs succeeds.
use wslvpn.Base.{
  ℕ, ◌≡◌, ◌≢◌, refl, ap, ◌∙◌, inl, inr, Bool, true, false, Option, none, some, List, [], ◌∷◌, ◌++◌,
  ◌==◌, arith, Bool-cases, if◌then◌else◌, length,
}
use wslvpn.Base.Int.{ℤ}
use wslvpn.Base.Text.{Text}
use wslvpn.Types.{GatewayConfig}
use wslvpn.Gateway.Peers.{IpNetworks, ReconcilePlan, desired_count, is_noop}
use wslvpn.Gateway.Peers.Additions.{plan-desired_count}
use wslvpn.Gateway.Apply.{
  WireGuardSection, managed_range, Command, show_dump, link_add, set_key, Outcome, printed, Log,
  Host, ApplyError, ok, check_peers, ensure_interface, prepare, run_each, then_run, change_peers,
  apply_firewall, round_plan, end_round, apply_plan, apply_config,
}
use wslvpn.Gateway.Apply.Rounds.{IsKeyless}

-- Every command succeeds, with some output.
abbrev pub Succeeds : Host → Type 0
Succeeds host = (log : Log) (c : Command) → (output : List ℕ) × (host log c ≡ printed output)

run_each-Succeeds :
    {A : Type 0} (host : Host) (command : A → Command) (error_of : A → Outcome → Option ApplyError)
    → Succeeds host
    → ((x : A) (output : List ℕ) → error_of x (printed output) ≡ none)
    → (xs : List A) (log : Log) → (run_each host command error_of xs log).0 ≡ none
unfolding run_each
run_each-Succeeds host command error_of s fine [] log = refl
run_each-Succeeds host command error_of s fine (x ∷ xs) log =
    let (output, e) = s log (command x) in
    rw (e, fine x output, run_each)
      (run_each-Succeeds host command error_of s fine xs (log ++ command x ∷ []))

then_run-Succeeds :
    (r : Option ApplyError × Log) (f : Log → Option ApplyError × Log)
    → r.0 ≡ none
    → ((l : Log) → (f l).0 ≡ none)
    → (then_run r f).0 ≡ none
then_run-Succeeds (some e, l) f h k = cc
then_run-Succeeds (none, l) f h k = k l

end_round-Succeeds :
    (count : ℕ) (rules : Log → Log) (r : Option ApplyError × Log)
    → r.0 ≡ none
    → (end_round count rules r).0 ≡ ok count
unfolding end_round
end_round-Succeeds count rules (some e, l) h = cc
end_round-Succeeds count rules (none, l) h = refl

change_peers-Succeeds :
    (host : Host) (interface : Text) (wanted : ReconcilePlan) (log : Log)
    → Succeeds host
    → (change_peers host interface wanted log).0 ≡ none
unfolding change_peers
change_peers-Succeeds host interface wanted log s = elim (Bool-cases (is_noop wanted)) [
  | inl e ↦ rw e refl
  | inr e ↦ rw e (
      then_run-Succeeds _ _ (run_each-Succeeds host _ _ s (λ x output. refl) _ log)
        (run_each-Succeeds host _ _ s (λ x output. refl) wanted.remove))
]

ensure_interface-Succeeds :
    (host : Host) (cfg : WireGuardSection) (config : GatewayConfig) (key : Option Text) (log : Log)
    → Succeeds host
    → (ensure_interface host cfg config key log).0 ≡ none
unfolding ensure_interface
ensure_interface-Succeeds host cfg config none log s = refl
ensure_interface-Succeeds host cfg config (some key) log s =
    let linked = log ++ link_add cfg.interface ∷ [] in
    let (output, e) = s linked (set_key cfg.interface config.listen_port key) in rw e refl

prepare-Succeeds :
    (host : Host) (cfg : WireGuardSection) (config : GatewayConfig) (key : Option Text) (log : Log)
    → IsKeyless cfg key
    → Succeeds host
    → (prepare host cfg config key log).0 ≡ none
unfolding prepare ensure_interface
prepare-Succeeds host cfg config key log keyless s = elim (Bool-cases cfg.adopt_existing) [
  | inl e ↦ rw (e, keyless e) refl
  | inr e ↦ rw e (ensure_interface-Succeeds host cfg config key log s)
]

module _ (nets : IpNetworks) (host : Host) (cfg : WireGuardSection) (config : GatewayConfig)
    (key : Option Text) (s : Succeeds host) where
  round-Succeeds :
      (wanted : ReconcilePlan) (log : Log) (manages : Bool)
      → (manages ≡ true → IsKeyless cfg key)
      → (if manages
          then end_round
              (desired_count wanted)
              (apply_firewall nets config (managed_range nets cfg config.private_network_cidr))
              (then_run (prepare host cfg config key log) (change_peers host cfg.interface wanted))
          else (ok (desired_count wanted), log)).0
        ≡ ok (desired_count wanted)
  round-Succeeds wanted log true keyless = end_round-Succeeds (desired_count wanted) _ _ (
      then_run-Succeeds _ _ (prepare-Succeeds host cfg config key log (keyless refl) s)
        (λ l. change_peers-Succeeds host cfg.interface wanted l s))
  round-Succeeds wanted log false keyless = refl

  apply_plan-Succeeds :
      (log : Log)
      → (cfg.manage_interface ≡ true → IsKeyless cfg key)
      → (apply_plan nets host cfg config key log).0 ≡ ok (length config.peers)
  unfolding apply_plan
  apply_plan-Succeeds log keyless =
      let wanted = round_plan nets host cfg config log in
      round-Succeeds wanted (log ++ show_dump cfg.interface ∷ []) cfg.manage_interface keyless
      ∙ ap (λ (n : ℕ). ok n) (plan-desired_count nets config.peers _ _)

  -- If every command succeeds, a round with a port, with peers that pass the checks and, where it
  -- manages an adopted interface, without a key to write answers the number of its peers.
  pub apply_config-total :
      (clock : ℕ → ℤ) (log : Log)
      → config.listen_port ≢ 0
      → check_peers clock 0 config.peers ≡ none
      → (cfg.manage_interface ≡ true → IsKeyless cfg key)
      → (apply_config nets host clock cfg config key log).0 ≡ ok (length config.peers)
  unfolding apply_config
  apply_config-total clock log port checked keyless = elim (Bool-cases (config.listen_port == 0)) [
    | inl e ↦ absurd (port (ground (arith, e)))
    | inr e ↦ rw (e, checked, apply_config) (apply_plan-Succeeds log keyless)
  ]
