-- ===== src/Gateway/Peers/Additions.antt =====
-- What `plan` of crates/wsl-gateway/src/wg.rs does with the peers that the control plane wants.
use wslvpn.Base.{
  suc, ◌+◌, ◌≡◌, refl, sym, ◌∙◌, subst, ◌↔◌, ◌⊎◌, inl, inr, Option, none, List, [], ◌∷◌, arith,
  Bool-cases, Option-cases, none-ne-some, length, length-append, Any,
}
use wslvpn.Base.Text.{Text, text_eq, text_eq_iff}
use wslvpn.Gateway.Peers.{
  IpNetworks, GatewayPeer, LivePeer, ReconcilePlan, desired_count, has_key, sort_desired,
  plan_desired, in_range, sort_live, plan_live, empty_plan, plan, live_by_key, same_allowed_ips,
}
use wslvpn.Gateway.Peers.Removal.{Any-snoc}

-- The loop over the live peers leaves what the first loop found.
abbrev Keeps : ReconcilePlan → ReconcilePlan → Type 0
Keeps after before = (after.add ≡ before.add) × (desired_count after ≡ desired_count before)

sort_live-Keeps :
    (nets : IpNetworks) (desired : List GatewayPeer) (managed : Option nets.Network)
    (peer : LivePeer) (before : ReconcilePlan)
    → Keeps (sort_live nets desired managed peer before) before
unfolding desired_count sort_live
sort_live-Keeps nets desired managed peer before =
    elim (Bool-cases (has_key desired peer.public_key)) [
      | inl e ↦ rw (e, sort_live) (refl, refl)
      | inr e ↦ elim (Bool-cases (in_range nets managed peer)) [
        | inl t ↦ rw (e, t, sort_live) (refl, refl)
        | inr t ↦ rw (e, t, sort_live) (refl, refl)
      ]
    ]

plan_live-Keeps :
    (nets : IpNetworks) (desired : List GatewayPeer) (managed : Option nets.Network)
    (live : List LivePeer) (before : ReconcilePlan)
    → Keeps (plan_live nets desired managed live before) before
unfolding plan_live
plan_live-Keeps nets desired managed [] before = (refl, refl)
plan_live-Keeps nets desired managed (peer ∷ live) before =
    let (add, count) =
      plan_live-Keeps nets desired managed live (sort_live nets desired managed peer before) in
    let (add', count') = sort_live-Keeps nets desired managed peer before in
    (add ∙ add', count ∙ count')

sort_desired_count :
    (nets : IpNetworks) (live : List LivePeer) (peer : GatewayPeer) (before : ReconcilePlan)
    → desired_count (sort_desired nets live peer before) ≡ suc (desired_count before)
unfolding desired_count sort_desired
sort_desired_count nets live peer before = elim (Option-cases (live_by_key live peer.public_key)) [
  | inl e ↦ rw (e, sort_desired) (omega (arith, length-append before.add (peer ∷ [])))
  | inr (found, e) ↦ elim (Bool-cases (same_allowed_ips nets peer.allowed_ips found.allowed_ips)) [
    | inl t ↦ rw (e, t, sort_desired) (omega (arith, length-append before.unchanged (peer ∷ [])))
    | inr t ↦ rw (e, t, sort_desired) (omega (arith, length-append before.update (peer ∷ [])))
  ]
]

plan_desired_count :
    (nets : IpNetworks) (live : List LivePeer) (desired : List GatewayPeer) (before : ReconcilePlan)
    → desired_count (plan_desired nets live desired before) ≡ length desired + desired_count before
unfolding plan_desired
plan_desired_count nets live [] before = omega arith
plan_desired_count nets live (peer ∷ desired) before = omega (
  arith,
  plan_desired_count nets live desired (sort_desired nets live peer before),
  sort_desired_count nets live peer before,
)

nothing_counted : desired_count empty_plan ≡ 0
unfolding desired_count
nothing_counted = refl

-- `desired_count` of the plan is the number of desired peers: each is added, updated or left as it
-- is, once, whatever the live peers and the managed range.
pub plan-desired_count :
    (nets : IpNetworks) (desired : List GatewayPeer) (live : List LivePeer)
    (managed : Option nets.Network)
    → desired_count (plan nets desired live managed) ≡ length desired
unfolding plan
plan-desired_count nets desired live managed = omega (
  arith,
  (plan_live-Keeps nets desired managed live (plan_desired nets live desired empty_plan)).1,
  plan_desired_count nets live desired empty_plan,
  nothing_counted,
)

-- A desired peer whose key is not on the interface.
abbrev pub IsAbsent : List LivePeer → GatewayPeer → Type 0
IsAbsent live peer = ¬ Any (λ l. l.public_key ≡ peer.public_key) live

live_by_key-none :
    (live : List LivePeer) (key : Text)
    → (live_by_key live key ≡ none) ↔ (¬ Any (λ l. l.public_key ≡ key) live)
unfolding live_by_key
live_by_key-none [] key = (λ _ h. h, λ _. refl)
live_by_key-none (l ∷ live) key = ground (
  arith,
  Option-cases (live_by_key live key),
  Bool-cases (text_eq l.public_key key),
  text_eq_iff l.public_key key,
  live_by_key-none live key,
)

sort_desired_add :
    (nets : IpNetworks) (live : List LivePeer) (peer found : GatewayPeer) (before : ReconcilePlan)
    → Any (λ p. p ≡ peer) (sort_desired nets live found before).add
      ↔ (Any (λ p. p ≡ peer) before.add ⊎ ((found ≡ peer) × IsAbsent live peer))
unfolding sort_desired
sort_desired_add nets live peer found before =
    elim (Option-cases (live_by_key live found.public_key)) [
      | inl e ↦
          let absent : IsAbsent live found = (live_by_key-none live found.public_key).0 e in
          rw (e, sort_desired)
            (
              λ h. elim ((Any-snoc _ before.add found).0 h) [
                | inl b ↦ inl b
                | inr same ↦ inr (same, subst (IsAbsent live) same absent)
              ],
              λ c. (Any-snoc _ before.add found).1 (elim c [ inl b ↦ inl b | inr r ↦ inr r.0 ]),
            )
      | inr (l, e) ↦
          let present : ¬ IsAbsent live found =
            λ a. none-ne-some (sym ((live_by_key-none live found.public_key).1 a) ∙ e) in
          let back : Any (λ p. p ≡ peer) before.add ⊎ ((found ≡ peer) × IsAbsent live peer)
              → Any (λ p. p ≡ peer) before.add =
            λ c. elim c [
              | inl b ↦ b
              | inr r ↦ absurd (present (subst (IsAbsent live) (sym r.0) r.1))
            ] in
          elim (Bool-cases (same_allowed_ips nets found.allowed_ips l.allowed_ips)) [
            | inl t ↦ rw (e, t, sort_desired) (λ h. inl h, back)
            | inr t ↦ rw (e, t, sort_desired) (λ h. inl h, back)
          ]
    ]

plan_desired_add :
    (nets : IpNetworks) (live : List LivePeer) (peer : GatewayPeer) (desired : List GatewayPeer)
    (before : ReconcilePlan)
    → Any (λ p. p ≡ peer) (plan_desired nets live desired before).add
      ↔ (Any (λ p. p ≡ peer) before.add ⊎ (Any (λ p. p ≡ peer) desired × IsAbsent live peer))
unfolding plan_desired
plan_desired_add nets live peer [] before = ground arith
plan_desired_add nets live peer (found ∷ desired) before = ground (
  arith,
  sort_desired_add nets live peer found before,
  plan_desired_add nets live peer desired (sort_desired nets live found before),
)

-- `plan` adds a peer exactly when it is desired and no live peer has its public key.
pub plan_add_iff :
    (nets : IpNetworks) (desired : List GatewayPeer) (live : List LivePeer)
    (managed : Option nets.Network) (peer : GatewayPeer)
    → Any (λ p. p ≡ peer) (plan nets desired live managed).add
      ↔ (Any (λ p. p ≡ peer) desired × IsAbsent live peer)
unfolding plan
plan_add_iff nets desired live managed peer =
    let loop = plan_desired_add nets live peer desired empty_plan in
    rw (plan_live-Keeps nets desired managed live (plan_desired nets live desired empty_plan)).0
      (λ h. elim (loop.0 h) [ inl b ↦ absurd b | inr r ↦ r ], λ r. loop.1 (inr r))
