-- ===== src/Gateway/Peers/Drawn.antt =====
-- The peers that `plan` of crates/wsl-gateway/src/wg.rs puts on the wire are desired ones.
use wslvpn.Base.{inl, inr, Option, List, [], ◌∷◌, Bool-cases, Option-cases, All}
use wslvpn.Base.Strings.Plain.{All-append}
use wslvpn.Gateway.Peers.{
  IpNetworks, GatewayPeer, LivePeer, ReconcilePlan, has_key, sort_desired, plan_desired, in_range,
  sort_live, plan_live, empty_plan, plan, live_by_key, same_allowed_ips,
}

-- What a list of desired peers has, the peers to add and to update have.
abbrev pub IsDrawn : (GatewayPeer → Type 0) → ReconcilePlan → Type 0
IsDrawn P wanted = All P wanted.add × All P wanted.update

module _ (P : GatewayPeer → Type 0) (nets : IpNetworks) where
  sort_desired-IsDrawn :
      (live : List LivePeer) (peer : GatewayPeer) (before : ReconcilePlan)
      → P peer
      → IsDrawn P before
      → IsDrawn P (sort_desired nets live peer before)
  unfolding sort_desired
  sort_desired-IsDrawn live peer before p h =
      elim (Option-cases (live_by_key live peer.public_key)) [
        | inl e ↦ rw (e, sort_desired) (All-append P before.add _ h.0 (p, tt), h.1)
        | inr (found, e) ↦
            elim (Bool-cases (same_allowed_ips nets peer.allowed_ips found.allowed_ips)) [
              | inl t ↦ rw (e, t, sort_desired) h
              | inr t ↦ rw (e, t, sort_desired) (h.0, All-append P before.update _ h.1 (p, tt))
            ]
      ]

  plan_desired-IsDrawn :
      (live : List LivePeer) (desired : List GatewayPeer) (before : ReconcilePlan)
      → All P desired
      → IsDrawn P before
      → IsDrawn P (plan_desired nets live desired before)
  unfolding plan_desired
  plan_desired-IsDrawn live [] before a h = h
  plan_desired-IsDrawn live (peer ∷ desired) before a h =
      plan_desired-IsDrawn live desired _ a.1 (sort_desired-IsDrawn live peer before a.0 h)

  sort_live-IsDrawn :
      (desired : List GatewayPeer) (managed : Option nets.Network) (peer : LivePeer)
      (before : ReconcilePlan)
      → IsDrawn P before
      → IsDrawn P (sort_live nets desired managed peer before)
  unfolding sort_live
  sort_live-IsDrawn desired managed peer before h =
      elim (Bool-cases (has_key desired peer.public_key)) [
        | inl e ↦ rw (e, sort_live) h
        | inr e ↦ elim (Bool-cases (in_range nets managed peer)) [
          | inl t ↦ rw (e, t, sort_live) h
          | inr t ↦ rw (e, t, sort_live) h
        ]
      ]

  plan_live-IsDrawn :
      (desired : List GatewayPeer) (managed : Option nets.Network) (live : List LivePeer)
      (before : ReconcilePlan)
      → IsDrawn P before
      → IsDrawn P (plan_live nets desired managed live before)
  unfolding plan_live
  plan_live-IsDrawn desired managed [] before h = h
  plan_live-IsDrawn desired managed (peer ∷ live) before h =
      plan_live-IsDrawn desired managed live _ (sort_live-IsDrawn desired managed peer before h)

  pub plan-IsDrawn :
      (desired : List GatewayPeer) (live : List LivePeer) (managed : Option nets.Network)
      → All P desired
      → IsDrawn P (plan nets desired live managed)
  unfolding plan
  plan-IsDrawn desired live managed a =
      plan_live-IsDrawn desired managed live _
        (plan_desired-IsDrawn live desired empty_plan a (tt, tt))
