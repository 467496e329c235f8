-- ===== src/Control/Sessions/Listing.antt =====
-- The lists of sessions in crates/wsl-control/src/services/sessions.rs. Rows of the same time keep
-- their order in the table, which the query leaves open.
use wslvpn.Base.{
  ℕ, ◌≡◌, refl, ◌⊎◌, inl, inr, Option, none, some, List, [], ◌∷◌, map, arith, ◌==◌, if◌then◌else◌,
  filter, take, All, Any, All-map, Any-map, Any-filter,
}
use wslvpn.Base.Int.{earlier}
use wslvpn.Base.Net.{Networks}
use wslvpn.Types.{Session}
use wslvpn.Control.Database.{SessionRow, Database, ok, Service, query, find}

abbrev pub to_session : Networks → SessionRow → Session
to_session nets r = record {
  id = r.id;
  user_id = r.user_id;
  device_id = r.device_id;
  gateway_id = r.gateway_id;
  network_id = r.network_id;
  policy_id = r.policy_id;
  policy_version = r.policy_version;
  assigned_ip = nets.to_string r.assigned_ip;
  status = r.status;
  created_at = r.created_at;
  expires_at = r.expires_at;
}

pub insert_newer : SessionRow → List SessionRow → List SessionRow
insert_newer r [] = r ∷ []
insert_newer r (s ∷ rows) =
    let later = insert_newer r rows in
    if earlier r.created_at s.created_at then s ∷ later else r ∷ s ∷ rows

-- `ORDER BY created_at DESC`.
pub newest_first : List SessionRow → List SessionRow
newest_first [] = []
newest_first (r ∷ rows) = insert_newer r (newest_first rows)

-- The rows of the query: those of one user, or the 200 newest.
pub fetch_rows : Option ℕ → Database → List SessionRow
fetch_rows (some user_id) tables = newest_first (filter (λ s. s.user_id == user_id) tables.sessions)
fetch_rows none tables = take 200 (newest_first tables.sessions)

pub fetch_sessions : Networks → Option ℕ → Service (List Session)
fetch_sessions nets user_id = query (λ tables. map (to_session nets) (fetch_rows user_id tables))

pub list : Networks → Service (List Session)
list nets = fetch_sessions nets none

pub list_for_user : Networks → ℕ → Service (List Session)
list_for_user nets user_id = fetch_sessions nets (some user_id)

pub owner_of : ℕ → Service (Option ℕ)
owner_of session_id = query (λ tables. elim (find (λ s. s.id == session_id) tables.sessions) [
  | none ↦ none
  | some s ↦ some s.user_id
])

module _ (P : SessionRow → Type 0) where
  insert_newer-All :
      (r : SessionRow) (rows : List SessionRow) → P r → All P rows → All P (insert_newer r rows)
  unfolding insert_newer
  insert_newer-All r [] p h = (p, tt)
  insert_newer-All r (s ∷ rows) p h = ground (arith, insert_newer-All r rows p h.1)

  newest_first-All : (rows : List SessionRow) → All P rows → All P (newest_first rows)
  unfolding newest_first
  newest_first-All [] h = tt
  newest_first-All (r ∷ rows) h =
      insert_newer-All r (newest_first rows) h.0 (newest_first-All rows h.1)

  insert_newer-Any :
      (r : SessionRow) (rows : List SessionRow) → P r ⊎ Any P rows → Any P (insert_newer r rows)
  unfolding insert_newer
  insert_newer-Any r [] (inl p) = inl p
  insert_newer-Any r [] (inr h) = absurd h
  insert_newer-Any r (s ∷ rows) (inl p) = ground (arith, insert_newer-Any r rows (inl p))
  insert_newer-Any r (s ∷ rows) (inr (inl p)) = ground arith
  insert_newer-Any r (s ∷ rows) (inr (inr h)) = ground (arith, insert_newer-Any r rows (inr h))

  newest_first-Any : (rows : List SessionRow) → Any P rows → Any P (newest_first rows)
  unfolding newest_first
  newest_first-Any [] h = h
  newest_first-Any (r ∷ rows) (inl p) = insert_newer-Any r (newest_first rows) (inl p)
  newest_first-Any (r ∷ rows) (inr h) =
      insert_newer-Any r (newest_first rows) (inr (newest_first-Any rows h))

abbrev pub IsSessionOf : ℕ → ℕ → SessionRow → Type 0
IsSessionOf user_id session_id row = (row.user_id ≡ user_id) × (row.id ≡ session_id)

owned_rows :
    (user_id : ℕ) (rows : List SessionRow)
    → All (λ s. s.user_id ≡ user_id) (filter (λ s. s.user_id == user_id) rows)
owned_rows user_id [] = tt
owned_rows user_id (r ∷ rows) = ground (arith, owned_rows user_id rows)

-- `list_for_user` answers without an error and changes nothing. Every session it lists is the
-- user's, and each session of the user in the table is listed.
pub list_for_user-IsOwn :
    (nets : Networks) (user_id : ℕ) (tables : Database)
    → (sessions : List Session) × (list_for_user nets user_id tables ≡ (ok sessions, tables))
      × All (λ s. s.user_id ≡ user_id) sessions
      × ((session_id : ℕ)
          → Any (IsSessionOf user_id session_id) tables.sessions
          → Any (λ s. s.id ≡ session_id) sessions)
unfolding list_for_user fetch_sessions fetch_rows query
list_for_user-IsOwn nets user_id tables =
    let mine = filter (λ s. s.user_id == user_id) tables.sessions in
    let Owned : SessionRow → Type 0 = λ s. s.user_id ≡ user_id in
    (
      map (to_session nets) (fetch_rows (some user_id) tables),
      refl,
      All-map Owned (λ s. s.user_id ≡ user_id) (to_session nets) (λ s h. h) (newest_first mine)
          (newest_first-All Owned mine (owned_rows user_id tables.sessions)),
      λ session_id found.
          Any-map (IsSessionOf user_id session_id) (λ s. s.id ≡ session_id) (to_session nets)
            (λ s h. h.1) (newest_first mine)
            (newest_first-Any (IsSessionOf user_id session_id) mine (
              Any-filter (λ s. s.user_id == user_id) (λ s h. ground (arith, h.0)) tables.sessions
                found)),
    )
