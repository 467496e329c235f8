-- ===== src/Control/Ipam/Elsewhere.antt =====
-- The calls of crates/wsl-control/src/services/ipam.rs touch neither sessions nor peers.
use wslvpn.Base.{ℕ, inl, inr, List, [], ◌∷◌, Bool-cases}
use wslvpn.Base.Net.{IpAddr, Networks}
use wslvpn.Control.Database.{insert_unless, AllocationRow, SessionRow, PeerRow, Database}
use wslvpn.Control.Database.Keeps.{Keeps, keeps_rules, Keeps-execute, Keeps-insert_unless}
use wslvpn.Control.Ipam.{is_skipped, insert_allocation, allocate_loop, allocate, release_session}

module _ (P : List SessionRow → List PeerRow → Type 0) where
  abbrev pub OnSessions : Database → Type 0
  OnSessions t = P t.sessions t.wireguard_peers

  pub Keeps-release_session : (id : ℕ) → Keeps OnSessions (release_session id)
  unfolding release_session
  Keeps-release_session id = Keeps-execute _ (λ t h. h)

  Keeps-insert_allocation : (row : AllocationRow) → Keeps OnSessions (insert_allocation row)
  unfolding insert_allocation insert_unless
  Keeps-insert_allocation row = Keeps-insert_unless _ _ (λ t free h. h)

  Keeps-allocate_loop :
      (nets : Networks) (network_id session_id : ℕ) (used addrs : List IpAddr)
      → Keeps OnSessions (allocate_loop nets network_id session_id used addrs)
  unfolding allocate_loop
  Keeps-allocate_loop nets network_id session_id used [] = search keeps_rules
  Keeps-allocate_loop nets network_id session_id used (addr ∷ addrs) =
      elim (Bool-cases (is_skipped used addr)) [
        | inl e ↦ rw (e, allocate_loop) (Keeps-allocate_loop nets network_id session_id used addrs)
        | inr e ↦ rw (e, allocate_loop) (search (keeps_rules, Keeps-insert_allocation))
      ]

  pub Keeps-allocate :
      (nets : Networks) (network_id session_id : ℕ)
      → Keeps OnSessions (allocate nets network_id session_id)
  unfolding allocate
  Keeps-allocate nets network_id session_id = search (keeps_rules, Keeps-allocate_loop)
