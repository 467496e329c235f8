-- ===== src/Control/Sessions/Peers.antt =====
-- Every peer of a gateway belongs to an open session: what crates/wsl-control/src/services keeps true
-- of the tables `sessions` and `wireguard_peers`.
use wslvpn.Base.{
  ℕ, ◌≡◌, refl, ◌⊎◌, inl, inr, Bool, false, not, List, [], ◌∷◌, map, arith, ◌==◌, ==_iff,
  Bool-cases, All, Any, All-filter_passed, All-mono, Any-map,
}
use wslvpn.Base.Int.{ℤ, ◌+ℤ◌}
use wslvpn.Base.Text.{Text}
use wslvpn.Base.Net.{Inet, Networks}
use wslvpn.Types.{active}
use wslvpn.Control.Database.{AuditEntry, GatewayRow, SessionRow, PeerRow, Database}
use wslvpn.Control.Database.Keeps.{
  Keeps, keeps_rules, Keeps-execute, Keeps-bind, Keeps-query, Keeps-pure, Keeps-if,
}
use wslvpn.Control.Database.Leads.{
  Leads, Keeps-of_Leads, Leads-bind, Leads-execute, Leads-Keeps, Leads-insert_unless, Leads-or_fail,
  Leads-query,
}
use wslvpn.Control.Ipam.Elsewhere.{OnSessions, Keeps-release_session, Keeps-allocate}
use wslvpn.Control.Sessions.{
  CreateSessionRequest, Admission, unspecified, duration_of, open_session, create, record_entry,
  refuse, load_active_policies, admit, insert_session, insert_peer, with_ip, assign_ip,
  bump_gateways, revoked_row, delete_peers, withdraw, revoke, revoke_all,
}

-- The session that a peer was added for.
abbrev pub Backs : PeerRow → SessionRow → Type 0
Backs p s =
    (s.id ≡ p.session_id)
    × (s.status ≡ active)
    × (s.gateway_id ≡ p.gateway_id)
    × (s.expires_at ≡ p.expires_at)

abbrev pub IsBacked : List SessionRow → PeerRow → Type 0
IsBacked sessions p = Any (Backs p) sessions

abbrev pub PeersBacked : Database → Type 0
PeersBacked tables = All (IsBacked tables.sessions) tables.wireguard_peers

-- The calls that touch neither table.
module _ (P : List SessionRow → List PeerRow → Type 0) where
  pub Keeps-bump_gateways :
      (p : Database → GatewayRow → Bool) → Keeps (OnSessions P) (bump_gateways p)
  unfolding bump_gateways
  Keeps-bump_gateways p = Keeps-execute _ (λ t h. h)

  pub Keeps-record_entry : (entry : AuditEntry) → Keeps (OnSessions P) (record_entry entry)
  unfolding record_entry
  Keeps-record_entry entry = Keeps-execute _ (λ t h. h)

  pub Keeps-admit :
      (user_id : ℕ) (email : Text) (req : CreateSessionRequest)
      → Keeps (OnSessions P) (admit user_id email req)
  unfolding admit refuse load_active_policies
  Keeps-admit user_id email req = search (keeps_rules, Keeps-record_entry) depth 20

-- Revoking. Between its first two statements the peer of the session is still there.
abbrev Revoking : ℕ → Database → Type 0
Revoking id t = All (λ p. (p.session_id ≡ id) ⊎ IsBacked t.sessions p) t.wireguard_peers

revoked_row-Backs :
    (id : ℕ) (p : PeerRow) (s : SessionRow)
    → (p.session_id ≡ id → ⊥)
    → Backs p s
    → Backs p (revoked_row id s)
revoked_row-Backs id p s other h = ground (arith, ==_iff s.id id)

still-IsBacked :
    (id : ℕ) (sessions : List SessionRow) (p : PeerRow)
    → IsBacked sessions p
    → (p.session_id ≡ id) ⊎ IsBacked (map (revoked_row id) sessions) p
still-IsBacked id sessions p h = elim (Bool-cases (p.session_id == id)) [
  | inl e ↦ inl ((==_iff _ _).0 e)
  | inr e ↦ inr (
      Any-map (Backs p) (Backs p) (revoked_row id)
        (λ s b. revoked_row-Backs id p s (λ same. cc (e, (==_iff p.session_id id).1 same)) b)
        sessions h)
]

withdraw-Leads : (id : ℕ) → Leads PeersBacked (λ _. PeersBacked) PeersBacked (withdraw id)
unfolding withdraw delete_peers
withdraw-Leads id =
    Leads-bind (λ _. Revoking id) _ _
      (Leads-execute _ (λ t h. All-mono (still-IsBacked id t.sessions) t.wireguard_peers h))
      (λ _.
        Leads-bind (λ _. PeersBacked) _ _
          (Leads-execute _ (λ t h.
            All-filter_passed (λ p. not (p.session_id == id))
              (λ p keep b. elim b [
                | inl same ↦ cc (keep, (==_iff p.session_id id).1 same)
                | inr r ↦ r
              ])
              t.wireguard_peers h))
          (λ _.
            Leads-Keeps _
              (search (
                keeps_rules,
                Keeps-release_session (λ s p. All (IsBacked s) p),
                Keeps-bump_gateways (λ s p. All (IsBacked s) p),
              ))
              (λ t h. h) (λ a t h. h)))

abbrev AllBacked : List SessionRow → List PeerRow → Type 0
AllBacked sessions peers = All (IsBacked sessions) peers

-- Revoking a session leaves every remaining peer with its active session.
pub revoke-PeersBacked : (id : ℕ) → Keeps PeersBacked (revoke id)
unfolding revoke
revoke-PeersBacked id =
    Keeps-bind _ _ (Keeps-query _)
      (λ affected. Keeps-if affected _ _ (Keeps-of_Leads _ (withdraw-Leads id)) (Keeps-pure false))

pub revoke_all-PeersBacked : (ids : List ℕ) → Keeps PeersBacked (revoke_all ids)
unfolding revoke_all
revoke_all-PeersBacked [] = search keeps_rules
revoke_all-PeersBacked (id ∷ ids) =
    Keeps-bind _ _ (revoke-PeersBacked id) (λ _. revoke_all-PeersBacked ids)

-- Opening. From the first insert on, the session that backs the new peer is there.
module _ (p : PeerRow) where
  abbrev Opening : Database → Type 0
  Opening = OnSessions (λ sessions peers. AllBacked sessions peers × IsBacked sessions p)

  with_ip-Backs :
      (id : ℕ) (ip : Inet) (q : PeerRow) (s : SessionRow) → Backs q s → Backs q (with_ip id ip s)
  with_ip-Backs id ip q s h = ground arith

  assign_ip-Opening : (id : ℕ) (ip : Inet) → Keeps Opening (assign_ip id ip)
  unfolding assign_ip
  assign_ip-Opening id ip = Keeps-execute _ (λ t h. (
    All-mono (λ q. Any-map (Backs q) (Backs q) (with_ip id ip) (with_ip-Backs id ip q) t.sessions)
        t.wireguard_peers h.0,
    Any-map (Backs p) (Backs p) (with_ip id ip) (with_ip-Backs id ip p) t.sessions h.1,
  ))

module _ (nets : Networks) (now : ℤ) (session_id peer_id user_id : ℕ) (email : Text)
    (req : CreateSessionRequest) (admission : Admission) where
  abbrev new_peer : Inet → PeerRow
  new_peer ip = record {
    id = peer_id;
    session_id = session_id;
    gateway_id = admission.gateway.id;
    device_id = req.device_id;
    public_key = admission.device.wireguard_public_key;
    allowed_ips = ip ∷ [];
    expires_at = now +ℤ duration_of admission.decision;
  }

  insert_session-Opening :
      (row : SessionRow)
      → Backs (new_peer unspecified) row
      → Leads PeersBacked (λ _. Opening (new_peer unspecified)) PeersBacked (insert_session row)
  unfolding insert_session
  insert_session-Opening row backs =
      Leads-insert_unless _ _ (λ t h. h)
        (λ t free h. (All-mono (λ q b. inr b) t.wireguard_peers h, inl backs))

  insert_peer-Opening :
      (ip : Inet)
      → Leads
          (Opening (new_peer unspecified))
          (λ _. PeersBacked)
          PeersBacked
          (insert_peer (new_peer ip))
  unfolding insert_peer
  insert_peer-Opening ip = Leads-insert_unless _ _ (λ t h. h.0) (λ t free h. (h.1, h.0))

  open_session-Leads :
      Leads PeersBacked
        (λ _. PeersBacked)
        PeersBacked
        (open_session nets now session_id peer_id user_id email req admission)
  unfolding open_session
  open_session-Leads =
      let opening = Opening (new_peer unspecified) in
      Leads-bind (λ _. opening) _ _ (insert_session-Opening _ (refl, refl, refl, refl))
        (λ _.
          Leads-bind (λ _. opening) _ _
            (Leads-Keeps _ (Keeps-allocate _ _ _ _) (λ t h. h.0) (λ a t h. h))
            (λ assigned.
              Leads-bind (λ _. opening) _ _ (Leads-or_fail _ _ (λ t h. h.0) (λ ip e t h. h))
                (λ ip.
                  Leads-bind (λ _. opening) _ _
                    (Leads-Keeps _ (assign_ip-Opening (new_peer unspecified) _ _) (λ t h. h.0)
                      (λ a t h. h))
                    (λ _.
                      Leads-bind (λ _. opening) _ _ (Leads-query _ (λ t h. h))
                        (λ routes.
                          Leads-bind (λ _. PeersBacked) _ _ (insert_peer-Opening ip)
                            (λ _.
                              Leads-Keeps _
                                (search (
                                  keeps_rules,
                                  Keeps-bump_gateways AllBacked,
                                  Keeps-record_entry AllBacked,
                                ))
                                (λ t h. h) (λ a t h. h)))))))

-- Creating a session, whether it succeeds or fails half-way, leaves every peer with an active session of
-- the same gateway that ends when the peer does.
pub create-PeersBacked :
    (nets : Networks) (now : ℤ) (session_id peer_id user_id : ℕ) (email : Text)
    (req : CreateSessionRequest)
    → Keeps PeersBacked (create nets now session_id peer_id user_id email req)
unfolding create
create-PeersBacked nets now session_id peer_id user_id email req =
    Keeps-bind _ _ (Keeps-admit AllBacked user_id email req) (λ admission.
      Keeps-of_Leads _ (open_session-Leads nets now session_id peer_id user_id email req admission))
