-- ===== src/Control/Gateways/Serving.antt =====
-- The peers that `GatewayService` of crates/wsl-control/src/services/gateways.rs puts into a
-- configuration, and what its sweep of expired rows keeps true.
use wslvpn.Base.{
  ℕ, ◌≡◌, subst, ◌⊎◌, inl, inr, true, false, not, ◌&&◌, List, [], ◌∷◌, map, arith, ◌==◌, Bool-cases,
  any, filter, All, Any, any_iff, All-mono, Any-map, All-filter_passed, All-filter,
}
use wslvpn.Base.Int.{ℤ, earlier}
use wslvpn.Base.Net.{Networks}
use wslvpn.Types.{GatewayPeer, GatewayConfig}
use wslvpn.Control.Database.{SessionRow, PeerRow, Database, Result, ok, err}
use wslvpn.Control.Database.Keeps.{Keeps, keeps_rules, Keeps-execute, Keeps-bind}
use wslvpn.Control.Database.Leads.{
  Leads, Post, Leads-bind, Leads-execute, Leads-or_fail, Leads-query, Leads-pure,
}
use wslvpn.Control.Sessions.{is_active}
use wslvpn.Control.Sessions.Peers.{Backs, IsBacked, PeersBacked}
use wslvpn.Control.Sessions.Revoking.{IsOpen, IsWithdrawn, IsOpen-row_iff}
use wslvpn.Control.Gateways.{
  expired_row, expire_sessions, delete_expired_peers, is_served, to_peer, served_peers, config,
  heartbeat,
}

-- After the first statement of the sweep, the peer of an expired session is expired as well.
abbrev Sweeping : ℤ → ℕ → Database → Type 0
Sweeping now id t =
    All (λ p. IsBacked t.sessions p ⊎ ((p.gateway_id == id && earlier p.expires_at now) ≡ true))
      t.wireguard_peers

expired_row-Backs :
    (now : ℤ) (id : ℕ) (p : PeerRow) (s : SessionRow)
    → (p.gateway_id == id && earlier p.expires_at now) ≡ false
    → Backs p s
    → Backs p (expired_row now id s)
expired_row-Backs now id p s fresh (own, is_on, gateway, ends) =
    let kept : (s.gateway_id == id && earlier s.expires_at now) ≡ false =
      rw gateway (rw ends fresh) in
    ground arith

sweep_row :
    (now : ℤ) (id : ℕ) (sessions : List SessionRow) (p : PeerRow)
    → IsBacked sessions p
    → IsBacked (map (expired_row now id) sessions) p
      ⊎ ((p.gateway_id == id && earlier p.expires_at now) ≡ true)
sweep_row now id sessions p h = elim (Bool-cases (p.gateway_id == id && earlier p.expires_at now)) [
  | inl e ↦ inr e
  | inr e ↦ inl (
      Any-map (Backs p) (Backs p) (expired_row now id) (λ s. expired_row-Backs now id p s e)
        sessions h)
]

-- A configuration names only peers of open sessions that have not ended.
abbrev pub AllOpen : ℤ → Database → GatewayConfig → Type 0
AllOpen now tables answer =
    All (λ p. Any (IsOpen p.session_id) tables.sessions × (earlier now p.expires_at ≡ true))
      answer.peers

served-All :
    (nets : Networks) (now : ℤ) (id : ℕ) (t : Database) (rows : List PeerRow)
    → All
        (λ p. Any (IsOpen p.session_id) t.sessions × (earlier now p.expires_at ≡ true))
        (map (to_peer nets) (filter (is_served now id t) rows))
served-All nets now id t [] = tt
served-All nets now id t (p ∷ rows) = elim (Bool-cases (is_served now id t p)) [
  | inl e ↦
      let joined : any (λ s. s.id == p.session_id && is_active s.status) t.sessions ≡ true =
        ground arith in
      let later : earlier now p.expires_at ≡ true = ground arith in
      rw e (
        ((any_iff _ (IsOpen-row_iff p.session_id) t.sessions).0 joined, later),
        served-All nets now id t rows,
      )
  | inr e ↦ rw e (served-All nets now id t rows)
]

module _ (nets : Networks) (default_port : ℕ) (now : ℤ) (id : ℕ) where
  sweep_sessions : Leads PeersBacked (λ _. Sweeping now id) PeersBacked (expire_sessions now id)
  unfolding expire_sessions
  sweep_sessions =
      Leads-execute _ (λ t h. All-mono (sweep_row now id t.sessions) t.wireguard_peers h)

  sweep_peers : Leads (Sweeping now id) (λ _. PeersBacked) PeersBacked (delete_expired_peers now id)
  unfolding delete_expired_peers
  sweep_peers = Leads-execute _ (λ t h.
      All-filter_passed (λ p. not (p.gateway_id == id && earlier p.expires_at now))
        (λ p keep b. elim b [ inl r ↦ r | inr over ↦ cc (keep, over) ]) t.wireguard_peers h)

  -- The peers of an answer are of open sessions that have not ended.
  abbrev Served : List GatewayPeer → Database → Type 0
  Served peers t =
      PeersBacked t
      × All (λ p. Any (IsOpen p.session_id) t.sessions × (earlier now p.expires_at ≡ true)) peers

  config-Leads :
      Leads PeersBacked
        (λ answer t. PeersBacked t × AllOpen now t answer)
        PeersBacked
        (config nets default_port now id)
  unfolding config served_peers
  config-Leads =
      Leads-bind (λ _. PeersBacked) _ _ (Leads-query _ (λ t h. h))
        (λ known.
          Leads-bind (λ _. PeersBacked) _ _ (Leads-or_fail _ _ (λ t h. h) (λ a e t h. h))
            (λ gateway.
              Leads-bind (λ _. PeersBacked) _ _ (Leads-or_fail _ _ (λ t h. h) (λ a e t h. h))
                (λ network_id.
                  Leads-bind (λ _. PeersBacked) _ _ (Leads-query _ (λ t h. h))
                    (λ found.
                      Leads-bind (λ _. PeersBacked) _ _
                        (Leads-or_fail _ _ (λ t h. h) (λ a e t h. h))
                        (λ network.
                          Leads-bind (λ _. Sweeping now id) _ _ sweep_sessions
                            (λ _.
                              Leads-bind (λ _. PeersBacked) _ _ sweep_peers
                                (λ _.
                                  Leads-bind (λ peers. Served peers) _ _
                                    (Leads-query _
                                      (λ t h. (h, served-All nets now id t t.wireguard_peers)))
                                    (λ peers.
                                      Leads-bind (λ _. Served peers) _ _ (Leads-query _ (λ t h. h))
                                        (λ routes.
                                          Leads-bind (λ _. Served peers) _ _
                                            (Leads-query _ (λ t h. h))
                                            (λ rows. Leads-pure _ (λ t h. h)))))))))))

  heartbeat-Leads :
      Leads PeersBacked
        (λ answer t. PeersBacked t × AllOpen now t answer)
        PeersBacked
        (heartbeat nets default_port now id)
  unfolding heartbeat
  heartbeat-Leads =
      Leads-bind (λ _. PeersBacked) _ _ (Leads-execute _ (λ t h. h)) (λ _. config-Leads)

  -- A heartbeat leaves every peer with its active session, and whatever it answers with names only
  -- peers of sessions that are open then and end later.
  pub heartbeat-AllOpen :
      (t : Database) (backed : PeersBacked t)
      → Post
          (λ answer after. PeersBacked after × AllOpen now after answer)
          PeersBacked
          (heartbeat nets default_port now id t).0
          (heartbeat nets default_port now id t).1
  heartbeat-AllOpen t backed = heartbeat-Leads.post t backed

  keeps_either_way :
      (r : Result GatewayConfig) (s : Database)
      → Post (λ answer after. PeersBacked after × AllOpen now after answer) PeersBacked r s
      → PeersBacked s
  keeps_either_way (ok a) s h = h.0
  keeps_either_way (err e) s h = h

  pub config-PeersBacked : Keeps PeersBacked (config nets default_port now id)
  config-PeersBacked = record {
    after = λ t h. keeps_either_way (config nets default_port now id t).0 _ (config-Leads.post t h);
  }

  pub heartbeat-PeersBacked : Keeps PeersBacked (heartbeat nets default_port now id)
  heartbeat-PeersBacked = record {
    after = λ t h.
        keeps_either_way (heartbeat nets default_port now id t).0 _ (heartbeat-Leads.post t h);
  }

  expired_row-closed :
      (session_id : ℕ) (sessions : List SessionRow)
      → Any (IsOpen session_id) (map (expired_row now id) sessions)
      → Any (IsOpen session_id) sessions
  expired_row-closed session_id [] h = h
  expired_row-closed session_id (s ∷ sessions) (inl h) = inl (ground arith)
  expired_row-closed session_id (s ∷ sessions) (inr h) =
      inr (expired_row-closed session_id sessions h)

  sweep-IsWithdrawn : (session_id : ℕ) → Keeps (IsWithdrawn session_id) (expire_sessions now id)
  unfolding expire_sessions
  sweep-IsWithdrawn session_id =
      Keeps-execute _ (λ t h. (λ a. h.0 (expired_row-closed session_id t.sessions a), h.1))

  delete-IsWithdrawn :
      (session_id : ℕ) → Keeps (IsWithdrawn session_id) (delete_expired_peers now id)
  unfolding delete_expired_peers
  delete-IsWithdrawn session_id =
      Keeps-execute _
        (λ t h. (h.0, All-filter (λ p. ¬ (p.session_id ≡ session_id)) _ t.wireguard_peers h.1))

  pub heartbeat-IsWithdrawn :
      (session_id : ℕ) → Keeps (IsWithdrawn session_id) (heartbeat nets default_port now id)
  unfolding heartbeat config
  heartbeat-IsWithdrawn session_id =
      Keeps-bind _ _ (Keeps-execute _ (λ t h. h))
        (λ _. search (keeps_rules, sweep-IsWithdrawn, delete-IsWithdrawn) depth 24)

withdrawn_unserved :
    (session_id : ℕ) (now : ℤ) (t : Database) (peers : List GatewayPeer)
    → IsWithdrawn session_id t
    → All (λ p. Any (IsOpen p.session_id) t.sessions × (earlier now p.expires_at ≡ true)) peers
    → All (λ p. ¬ (p.session_id ≡ session_id)) peers
withdrawn_unserved session_id now t peers gone served =
    All-mono (λ p h same. gone.0 (subst (λ id. Any (IsOpen id) t.sessions) same h.0)) peers served

-- The answer names no peer of the session.
abbrev pub Unserved : ℕ → GatewayConfig → Type 0
Unserved session_id answer = All (λ p. ¬ (p.session_id ≡ session_id)) answer.peers

conclude-Unserved :
    (session_id : ℕ) (now : ℤ) (r : Result GatewayConfig) (s : Database)
    → Post (λ answer after. PeersBacked after × AllOpen now after answer) PeersBacked r s
    → IsWithdrawn session_id s
    → Post (λ answer after. Unserved session_id answer) (λ after. Unit) r s
conclude-Unserved session_id now (ok answer) s h gone =
    withdrawn_unserved session_id now s answer.peers gone h.1
conclude-Unserved session_id now (err e) s h gone = tt

module _ (nets : Networks) (default_port : ℕ) (now : ℤ) (gateway_id session_id : ℕ) where
  -- What a heartbeat answers with has no peer of a session that is withdrawn.
  pub Unserved-after :
      (t : Database)
      → PeersBacked t
      → IsWithdrawn session_id t
      → Post {A = GatewayConfig}
          (λ answer after. Unserved session_id answer)
          (λ after. Unit)
          (heartbeat nets default_port now gateway_id t).0
          (heartbeat nets default_port now gateway_id t).1
  Unserved-after t backed gone =
      conclude-Unserved session_id now (heartbeat nets default_port now gateway_id t).0
        (heartbeat nets default_port now gateway_id t).1
        (heartbeat-AllOpen nets default_port now gateway_id t backed)
        ((heartbeat-IsWithdrawn nets default_port now gateway_id session_id).after t gone)
