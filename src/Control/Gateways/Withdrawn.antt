-- ===== src/Control/Gateways/Withdrawn.antt =====
-- A session that was revoked stays withdrawn, whichever call of crates/wsl-control/src/services comes
-- next: `create`, the revocations and the heartbeat.
use wslvpn.Base.{
  ℕ, ◌≡◌, ◌≢◌, refl, sym, ◌∙◌, inl, inr, List, [], ◌∷◌, map, arith, ◌==◌, ==_iff, All, Any,
  Any-mono, any_iff, Any-map, All-filter,
}
use wslvpn.Base.Int.{ℤ}
use wslvpn.Base.Text.{Text}
use wslvpn.Base.Net.{Inet, Networks}
use wslvpn.Control.Database.{SessionRow, PeerRow, Database}
use wslvpn.Control.Database.Keeps.{
  Keeps, keeps_rules, Keeps-execute, Keeps-bind, Keeps-insert_unless,
}
use wslvpn.Control.Database.Leads.{
  Leads, Keeps-of_Leads, Leads-bind, Leads-Keeps, Leads-insert_unless,
}
use wslvpn.Control.Ipam.Elsewhere.{OnSessions, Keeps-release_session, Keeps-allocate}
use wslvpn.Control.Sessions.{
  CreateSessionRequest, Admission, open_session, create, insert_session, insert_peer, with_ip,
  assign_ip, revoked_row, delete_peers, withdraw, revoke, revoke_all,
}
use wslvpn.Control.Sessions.Peers.{Keeps-bump_gateways, Keeps-record_entry, Keeps-admit}
use wslvpn.Control.Sessions.Revoking.{IsOpen}
use wslvpn.Control.Gateways.{expired_row, expire_sessions, delete_expired_peers, heartbeat, config}

module _ (id : ℕ) where
  -- The row of the session is there, it is not open, and no peer is left of it.
  abbrev pub IsOver : List SessionRow → List PeerRow → Type 0
  IsOver sessions peers =
      Any (λ s. s.id ≡ id) sessions
      × ((¬ Any (IsOpen id) sessions) × All (λ p. ¬ (p.session_id ≡ id)) peers)

  abbrev pub StaysOver : Database → Type 0
  StaysOver = OnSessions IsOver

  -- A change of rows that keeps their ids and opens none.
  map-IsOver :
      (f : SessionRow → SessionRow)
      → ((s : SessionRow) → (f s).id ≡ s.id)
      → ((s : SessionRow) → IsOpen id (f s) → IsOpen id s)
      → (sessions : List SessionRow) (peers : List PeerRow) → IsOver sessions peers
      → IsOver (map f sessions) peers
  map-IsOver f same closed sessions peers (there, (shut, gone)) = (
    Any-map (λ s. s.id ≡ id) (λ s. s.id ≡ id) f (λ s h. same s ∙ h) sessions there,
    (λ a. shut (reopen sessions a), gone),
  )
    where
      reopen : (rows : List SessionRow) → Any (IsOpen id) (map f rows) → Any (IsOpen id) rows
      reopen [] a = a
      reopen (s ∷ rows) (inl h) = inl (closed s h)
      reopen (s ∷ rows) (inr h) = inr (reopen rows h)

  abbrev HasRow : List SessionRow → List PeerRow → Type 0
  HasRow sessions peers = Any (λ s. s.id ≡ id) sessions

  withdraw-HasRow : (other : ℕ) → Keeps (OnSessions HasRow) (withdraw other)
  unfolding withdraw delete_peers
  withdraw-HasRow other =
      Keeps-bind _ _
        (Keeps-execute _ (λ t.
          Any-map (λ s. s.id ≡ id) (λ s. s.id ≡ id) (revoked_row other) (λ s h. ground arith)
            t.sessions))
        (λ _.
          Keeps-bind _ _ (Keeps-execute _ (λ t h. h))
            (λ _. search (keeps_rules, Keeps-release_session HasRow, Keeps-bump_gateways HasRow)))

  -- Revoking takes no row away.
  pub revoke-HasRow :
      (other : ℕ) → Keeps (OnSessions (λ sessions _. Any (λ s. s.id ≡ id) sessions)) (revoke other)
  unfolding revoke
  revoke-HasRow other = search (keeps_rules, withdraw-HasRow)

  withdraw-StaysOver : (other : ℕ) → Keeps StaysOver (withdraw other)
  unfolding withdraw delete_peers
  withdraw-StaysOver other =
      Keeps-bind _ _
        (Keeps-execute _ (λ t.
          map-IsOver (revoked_row other) (λ s. ground arith) (λ s h. ground arith) t.sessions
            t.wireguard_peers))
        (λ _.
          Keeps-bind _ _
            (Keeps-execute _ (λ t h. (h.0, (h.1.0, All-filter _ _ t.wireguard_peers h.1.1))))
            (λ _. search (keeps_rules, Keeps-release_session IsOver, Keeps-bump_gateways IsOver)))

  pub revoke-StaysOver : (other : ℕ) → Keeps StaysOver (revoke other)
  unfolding revoke
  revoke-StaysOver other = search (keeps_rules, withdraw-StaysOver)

  pub revoke_all-StaysOver : (ids : List ℕ) → Keeps StaysOver (revoke_all ids)
  unfolding revoke_all
  revoke_all-StaysOver [] = search keeps_rules
  revoke_all-StaysOver (other ∷ ids) =
      Keeps-bind _ _ (revoke-StaysOver other) (λ _. revoke_all-StaysOver ids)

  expire_sessions-StaysOver :
      (now : ℤ) (gateway_id : ℕ) → Keeps StaysOver (expire_sessions now gateway_id)
  unfolding expire_sessions
  expire_sessions-StaysOver now gateway_id = Keeps-execute _ (λ t.
      map-IsOver (expired_row now gateway_id) (λ s. ground arith) (λ s h. ground arith) t.sessions
        t.wireguard_peers)

  delete_expired_peers-StaysOver :
      (now : ℤ) (gateway_id : ℕ) → Keeps StaysOver (delete_expired_peers now gateway_id)
  unfolding delete_expired_peers
  delete_expired_peers-StaysOver now gateway_id =
      Keeps-execute _ (λ t h. (h.0, (h.1.0, All-filter _ _ t.wireguard_peers h.1.1)))

  pub config-StaysOver :
      (nets : Networks) (default_port : ℕ) (now : ℤ) (gateway_id : ℕ)
      → Keeps StaysOver (config nets default_port now gateway_id)
  unfolding config
  config-StaysOver nets default_port now gateway_id =
      search (keeps_rules, expire_sessions-StaysOver, delete_expired_peers-StaysOver) depth 24

  pub heartbeat-StaysOver :
      (nets : Networks) (default_port : ℕ) (now : ℤ) (gateway_id : ℕ)
      → Keeps StaysOver (heartbeat nets default_port now gateway_id)
  unfolding heartbeat
  heartbeat-StaysOver nets default_port now gateway_id =
      Keeps-bind _ _ (Keeps-execute _ (λ t h. h))
        (λ _. config-StaysOver nets default_port now gateway_id)

  -- While another session is opened.
  module _ (session_id : ℕ) where
    abbrev IsOther : List SessionRow → List PeerRow → Type 0
    IsOther sessions peers = (session_id ≢ id) × IsOver sessions peers

    -- The primary key of the table keeps the id of the session from being used again.
    insert_session-IsOther :
        (row : SessionRow)
        → row.id ≡ session_id
        → Leads StaysOver (λ _. OnSessions IsOther) StaysOver (insert_session row)
    unfolding insert_session
    insert_session-IsOther row own =
        Leads-insert_unless _ _ (λ t h. h)
          (λ t free h.
            let other : session_id ≢ id = λ same. cc (
              free,
              (any_iff (λ s. s.id == row.id) (λ s. ==_iff s.id row.id) t.sessions).1
                  (Any-mono (λ s h. h ∙ sym (own ∙ same)) t.sessions h.0),
            ) in
            (
              other,
              (
                inr h.0,
                (
                  λ a. elim a [
                    | inl now_open ↦ other (sym own ∙ now_open.0)
                    | inr before ↦ h.1.0 before
                  ],
                  h.1.1,
                ),
              ),
            ))

    assign_ip-IsOther : (other : ℕ) (ip : Inet) → Keeps (OnSessions IsOther) (assign_ip other ip)
    unfolding assign_ip
    assign_ip-IsOther other ip = Keeps-execute _ (λ t h. (
      h.0,
      map-IsOver (with_ip other ip) (λ s. ground arith) (λ s k. ground arith) t.sessions
          t.wireguard_peers h.1,
    ))

    insert_peer-IsOther :
        (row : PeerRow) → row.session_id ≡ session_id → Keeps (OnSessions IsOther) (insert_peer row)
    unfolding insert_peer
    insert_peer-IsOther row own =
        Keeps-insert_unless _ _
          (λ t free h. (h.0, (h.1.0, (h.1.1.0, (λ same. h.0 (sym own ∙ same), h.1.1.1)))))

    pub open_session-StaysOver :
        (nets : Networks) (now : ℤ) (peer_id user_id : ℕ) (email : Text)
        (req : CreateSessionRequest) (admission : Admission)
        → Keeps StaysOver (open_session nets now session_id peer_id user_id email req admission)
    unfolding open_session
    open_session-StaysOver nets now peer_id user_id email req admission = Keeps-of_Leads _ (
        Leads-bind (λ _. OnSessions IsOther) _ _ (insert_session-IsOther _ refl)
          (λ _.
            Leads-Keeps _
              (search
                (
                  keeps_rules,
                  Keeps-allocate IsOther,
                  assign_ip-IsOther,
                  λ (row : PeerRow) (own : row.session_id ≡ session_id).
                      insert_peer-IsOther row own,
                  Keeps-bump_gateways IsOther,
                  Keeps-record_entry IsOther,
                )
                depth 24)
              (λ t h. h.1) (λ a t h. h.1)))

  pub create-StaysOver :
      (nets : Networks) (now : ℤ) (session_id peer_id user_id : ℕ) (email : Text)
      (req : CreateSessionRequest)
      → Keeps StaysOver (create nets now session_id peer_id user_id email req)
  unfolding create
  create-StaysOver nets now session_id peer_id user_id email req =
      Keeps-bind _ _ (Keeps-admit IsOver user_id email req)
        (open_session-StaysOver session_id nets now peer_id user_id email req)
