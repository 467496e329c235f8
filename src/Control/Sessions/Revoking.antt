-- ===== src/Control/Sessions/Revoking.antt =====
-- What is left of a session after `revoke` of crates/wsl-control/src/services/sessions.rs.
use wslvpn.Base.{
  ℕ, ◌≡◌, refl, ◌∙◌, ◌↔◌, inl, inr, true, not, ◌&&◌, some, List, [], ◌∷◌, map, arith, ◌==◌, ==_iff,
  Bool-cases, Option-cases, none-ne-some, some_inj, Any-mono, any, filter, All, Any, any_iff,
  All-mono,
}
use wslvpn.Types.{active}
use wslvpn.Control.Database.{SessionRow, PeerRow, AllocationRow, Database, ok, ◌>>=◌}
use wslvpn.Control.Ipam.{release_session, belongs_to}
use wslvpn.Control.Sessions.{bump_gateways, is_active, revoked_row, delete_peers, withdraw, revoke}
use wslvpn.Control.Sessions.Peers.{PeersBacked}

-- A session that is open: its row is there and active.
abbrev pub IsOpen : ℕ → SessionRow → Type 0
IsOpen id s = (s.id ≡ id) × (s.status ≡ active)

-- Nothing of the session works any more.
abbrev pub IsWithdrawn : ℕ → Database → Type 0
IsWithdrawn id tables =
    (¬ Any (IsOpen id) tables.sessions) × All (λ p. ¬ (p.session_id ≡ id)) tables.wireguard_peers

pub IsOpen-row_iff :
    (id : ℕ) (s : SessionRow) → ((s.id == id && is_active s.status) ≡ true) ↔ IsOpen id s
IsOpen-row_iff id s = ground (arith, ==_iff s.id id)

revoked_row-closed :
    (id : ℕ) (sessions : List SessionRow) → ¬ Any (IsOpen id) (map (revoked_row id) sessions)
revoked_row-closed id [] h = h
revoked_row-closed id (s ∷ sessions) (inl h) = ground (arith, ==_iff s.id id)
revoked_row-closed id (s ∷ sessions) (inr h) = revoked_row-closed id sessions h

peers_gone :
    (id : ℕ) (peers : List PeerRow)
    → All (λ p. ¬ (p.session_id ≡ id)) (filter (λ p. not (p.session_id == id)) peers)
peers_gone id [] = tt
peers_gone id (p ∷ peers) = ground (arith, ==_iff p.session_id id, peers_gone id peers)

addresses_freed :
    (id : ℕ) (rows : List AllocationRow)
    → All (λ r. ¬ (r.session_id ≡ some id)) (filter (λ r. not (belongs_to id r.session_id)) rows)
addresses_freed id [] = tt
addresses_freed id (r ∷ rows) = elim (Option-cases r.session_id) [
  | inl e ↦ rw e (λ h. none-ne-some h, addresses_freed id rows)
  | inr (owner, e) ↦ rw e (
      ground
        (arith, ==_iff owner id, some_inj {A = ℕ} {a = owner} {b = id}, addresses_freed id rows))
]

-- Without an open session there is no peer of it, where every peer is backed.
no_peer :
    (id : ℕ) (t : Database)
    → PeersBacked t
    → ¬ Any (IsOpen id) t.sessions
    → All (λ p. ¬ (p.session_id ≡ id)) t.wireguard_peers
no_peer id t backed closed =
    All-mono (λ p b same. closed (Any-mono (λ s h. (h.0 ∙ same, h.1)) t.sessions b))
      t.wireguard_peers backed

-- `revoke` answers whether the session was open. Afterwards it is not, and no peer of it is left; an
-- address that it had is free again if it was open.
pub revoke-IsWithdrawn :
    (id : ℕ) (t : Database)
    → PeersBacked t
    → ((revoke id t).0 ≡ ok (any (λ s. s.id == id && is_active s.status) t.sessions))
      × IsWithdrawn id (revoke id t).1
      × (Any (IsOpen id) t.sessions
          → All (λ r. ¬ (r.session_id ≡ some id)) (revoke id t).1.ipam_allocations)
unfolding revoke withdraw delete_peers bump_gateways release_session ◌>>=◌
revoke-IsWithdrawn id t backed =
    elim (Bool-cases (any (λ s. s.id == id && is_active s.status) t.sessions)) [
      | inl e ↦ rw e (
        refl,
        (revoked_row-closed id t.sessions, peers_gone id t.wireguard_peers),
        λ _. addresses_freed id t.ipam_allocations,
      )
      | inr e ↦
          let closed : ¬ Any (IsOpen id) t.sessions =
            λ a. cc (e, (any_iff _ (IsOpen-row_iff id) t.sessions).1 a) in
          rw e (refl, (closed, no_peer id t backed closed), λ a. absurd (closed a))
    ]
