-- ===== src/Gateway/Peers/Removal.antt =====
-- What `plan` of crates/wsl-gateway/src/wg.rs takes off the interface, and what it leaves alone.
use wslvpn.Base.{
  ◌≤◌, ◌≡◌, refl, sym, ap, ◌∙◌, ◌↔◌, ◌⊎◌, inl, inr, true, Option, none, some, List, [], ◌∷◌, ◌++◌,
  arith, Bool-cases, Option-cases, is_empty, All, Any, any_iff, all_iff, some_inj, none-ne-some,
  subst,
}
use wslvpn.Base.Text.{Text, text_eq_iff}
use wslvpn.Gateway.Peers.{
  IpNetworks, GatewayPeer, LivePeer, ReconcilePlan, contains_network, inside, is_managed, has_key,
  sort_desired, plan_desired, in_range, sort_live, plan_live, empty_plan, plan, live_by_key,
  same_allowed_ips,
}

-- An address text of a peer reads as a network of the same family inside the range.
abbrev pub Inside : (nets : IpNetworks) → nets.Network → Text → Type 0
Inside nets range raw =
    (net : nets.Network) × (nets.parse raw ≡ some net)
    × (nets.is_v4 net ≡ nets.is_v4 range)
    × (nets.prefix range ≤ nets.prefix net)
    × (nets.contains range (nets.network net) ≡ true)

-- A peer the gateway may remove: it has addresses, and all of them are inside the range.
abbrev pub IsManaged : (nets : IpNetworks) → nets.Network → LivePeer → Type 0
IsManaged nets range peer = (¬ (peer.allowed_ips ≡ [])) × All (Inside nets range) peer.allowed_ips

abbrev pub IsDesired : List GatewayPeer → Text → Type 0
IsDesired desired key = Any (λ peer. peer.public_key ≡ key) desired

-- The reason to remove a key.
abbrev pub Removable :
    (nets : IpNetworks) → List GatewayPeer → Option nets.Network → Text → LivePeer → Type 0
Removable nets desired managed key peer =
    (peer.public_key ≡ key)
    × (¬ IsDesired desired key)
    × ((range : nets.Network) × (managed ≡ some range) × IsManaged nets range peer)

contains_network_iff :
    (nets : IpNetworks) (outer inner : nets.Network)
    → (contains_network nets outer inner ≡ true) ↔ (
        (nets.is_v4 inner ≡ nets.is_v4 outer)
        × (nets.prefix outer ≤ nets.prefix inner)
        × (nets.contains outer (nets.network inner) ≡ true))
unfolding contains_network
contains_network_iff nets outer inner =
    ground (arith, Bool-cases (nets.is_v4 outer), Bool-cases (nets.is_v4 inner))

inside_iff :
    (nets : IpNetworks) (range : nets.Network) (raw : Text)
    → (inside nets range raw ≡ true) ↔ Inside nets range raw
inside_iff nets range raw = elim (Option-cases (nets.parse raw)) [
  | inl e ↦ rw e (λ h. cc, λ i. cc)
  | inr (net, e) ↦
      let opened : inside nets range raw ≡ contains_network nets range net = rw (e, inside) refl in
      (
        λ h.
            let (family, longer, within) =
              (contains_network_iff nets range net).0 (sym opened ∙ h) in
            (net, e, family, longer, within),
        λ (other, same, family, longer, within).
            rw (same, inside) ((contains_network_iff nets range other).1 (family, longer, within)),
      )
]

is_empty-nil : {A : Type 0} (xs : List A) → is_empty xs ≡ true → xs ≡ []
is_empty-nil [] h = refl
is_empty-nil (x ∷ xs) h = cc

pub is_managed_iff :
    (nets : IpNetworks) (peer : LivePeer) (range : nets.Network)
    → (is_managed nets peer range ≡ true) ↔ IsManaged nets range peer
unfolding is_managed
is_managed_iff nets peer range = elim (Bool-cases (is_empty peer.allowed_ips)) [
  | inl e ↦ rw e (λ h. cc, λ m. absurd (m.0 (is_empty-nil _ e)))
  | inr e ↦ rw e (
    λ h. (λ nil. cc (e, ap is_empty nil), (all_iff _ (inside_iff nets range) _).0 h),
    λ m. (all_iff _ (inside_iff nets range) _).1 m.1,
  )
]

-- The lists of a plan grow at their end.
pub Any-snoc :
    {A : Type 0} (P : A → Type 0) (xs : List A) (x : A) → Any P (xs ++ x ∷ []) ↔ (Any P xs ⊎ P x)
Any-snoc P [] x = ground arith
Any-snoc P (y ∷ xs) x = ground (arith, Any-snoc P xs x)

pub has_key_iff :
    (desired : List GatewayPeer) (key : Text) → (has_key desired key ≡ true) ↔ IsDesired desired key
unfolding has_key
has_key_iff desired key = any_iff _ (λ peer. text_eq_iff peer.public_key key) desired

in_range_iff :
    (nets : IpNetworks) (managed : Option nets.Network) (peer : LivePeer)
    → (in_range nets managed peer ≡ true)
      ↔ ((range : nets.Network) × (managed ≡ some range) × IsManaged nets range peer)
in_range_iff nets none peer = (λ h. cc, λ (range, e, m). absurd (none-ne-some e))
in_range_iff nets (some range) peer = (
  λ h. let m = (is_managed_iff nets peer range).0 h in (range, refl, m),
  λ (other, e, m). (is_managed_iff nets peer range).1 (rw (some_inj e) m),
)

-- The loops, on the key that is removed.
sort_live_remove :
    (nets : IpNetworks) (desired : List GatewayPeer) (managed : Option nets.Network) (key : Text)
    (peer : LivePeer) (before : ReconcilePlan)
    → Any (λ k. k ≡ key) (sort_live nets desired managed peer before).remove
      ↔ (Any (λ k. k ≡ key) before.remove ⊎ Removable nets desired managed key peer)
unfolding sort_live
sort_live_remove nets desired managed key peer before =
    elim (Bool-cases (has_key desired peer.public_key)) [
      | inl e ↦
          rw (e, sort_live)
            (
              λ h. inl h,
              λ c. elim c [
                | inl h ↦ h
                | inr r ↦ absurd (
                    r.1 (subst (IsDesired desired) r.0 ((has_key_iff desired peer.public_key).0 e)))
              ],
            )
      | inr e ↦ elim (Bool-cases (in_range nets managed peer)) [
        | inl t ↦
            rw (e, t, sort_live)
              (
                λ h. elim ((Any-snoc _ before.remove peer.public_key).0 h) [
                  | inl b ↦ inl b
                  | inr same ↦ inr (
                    same,
                    λ d. cc (
                      e,
                      (has_key_iff desired peer.public_key).1
                          (subst (IsDesired desired) (sym same) d),
                    ),
                    (in_range_iff nets managed peer).0 t,
                  )
                ],
                λ c.
                    (Any-snoc _ before.remove peer.public_key).1
                      (elim c [ inl b ↦ inl b | inr r ↦ inr r.0 ]),
              )
        | inr t ↦
            rw (e, t, sort_live)
              (
                λ h. inl h,
                λ c. elim c [ inl h ↦ h | inr r ↦ cc (t, (in_range_iff nets managed peer).1 r.2) ],
              )
      ]
    ]

plan_live_remove :
    (nets : IpNetworks) (desired : List GatewayPeer) (managed : Option nets.Network) (key : Text)
    (live : List LivePeer) (before : ReconcilePlan)
    → Any (λ k. k ≡ key) (plan_live nets desired managed live before).remove
      ↔ (Any (λ k. k ≡ key) before.remove ⊎ Any (Removable nets desired managed key) live)
unfolding plan_live
plan_live_remove nets desired managed key [] before = ground arith
plan_live_remove nets desired managed key (peer ∷ live) before = ground (
  arith,
  sort_live_remove nets desired managed key peer before,
  plan_live_remove nets desired managed key live (sort_live nets desired managed peer before),
)

sort_desired_remove :
    (nets : IpNetworks) (live : List LivePeer) (peer : GatewayPeer) (before : ReconcilePlan)
    → (sort_desired nets live peer before).remove ≡ before.remove
unfolding sort_desired
sort_desired_remove nets live peer before = elim (Option-cases (live_by_key live peer.public_key)) [
  | inl e ↦ rw (e, sort_desired) refl
  | inr (found, e) ↦ elim (Bool-cases (same_allowed_ips nets peer.allowed_ips found.allowed_ips)) [
    | inl t ↦ rw (e, t, sort_desired) refl
    | inr t ↦ rw (e, t, sort_desired) refl
  ]
]

plan_desired_remove :
    (nets : IpNetworks) (live : List LivePeer) (desired : List GatewayPeer) (before : ReconcilePlan)
    → (plan_desired nets live desired before).remove ≡ before.remove
unfolding plan_desired
plan_desired_remove nets live [] before = refl
plan_desired_remove nets live (peer ∷ desired) before =
    plan_desired_remove nets live desired _ ∙ sort_desired_remove nets live peer before

-- `plan` removes a key exactly when a live peer has it that no desired peer has, a managed range is
-- known, and that live peer has addresses, each of which reads as a network inside the range. In
-- particular nothing is removed without a managed range, and no peer with an address outside it.
pub plan_remove_iff :
    (nets : IpNetworks) (desired : List GatewayPeer) (live : List LivePeer)
    (managed : Option nets.Network) (key : Text)
    → Any (λ k. k ≡ key) (plan nets desired live managed).remove
      ↔ Any (Removable nets desired managed key) live
unfolding plan
plan_remove_iff nets desired live managed key =
    let none_before : Any (λ k. k ≡ key) (plan_desired nets live desired empty_plan).remove → ⊥ =
      rw (plan_desired_remove nets live desired empty_plan) (λ h. h) in
    let loop =
      plan_live_remove nets desired managed key live (plan_desired nets live desired empty_plan) in
    (λ h. elim (loop.0 h) [ inl b ↦ absurd (none_before b) | inr r ↦ r ], λ r. loop.1 (inr r))
