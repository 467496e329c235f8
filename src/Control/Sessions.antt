-- ===== src/Control/Sessions.antt =====
-- crates/wsl-control/src/services/sessions.rs, with the audit entries that it writes. `now` is the
-- time of the call, and the ids that `Uuid::new_v4` and the database make up are arguments.
pub mod Peers
pub mod Entitlement
pub mod Granting
pub mod Revoking
pub mod Listing
use wslvpn.Base.{
  ℕ, suc, ◌*◌, Bool, true, false, not, ◌&&◌, Option, none, some, List, [], ◌∷◌, map, ◌==◌,
  if◌then◌else◌, any, filter, is_empty,
}
use wslvpn.Base.Int.{ℤ, pos, ◌+ℤ◌, earlier}
use wslvpn.Base.Text.{Text, codes, text_eq}
use wslvpn.Base.Net.{IpAddr, v4, v6, Inet, Networks}
use wslvpn.Types.{
  SessionStatus, active, expired, revoked, Session, ClientWireGuardConfig, SessionIdentity,
}
use wslvpn.Policy.{
  AccessPolicyDocument, EvaluationInput, PolicyDecision, PostureSignal, device_reports_managed,
  evaluate,
}
use wslvpn.Control.Database.{
  UserRow, DeviceRow, NetworkRow, GatewayRow, SessionRow, PeerRow, PolicyRow, Database, user,
  system, Details, no_details, denial, session_opened, AuditEntry, bad_request, forbidden,
  not_found, internal, Service, pure, fail, insert_unless, ◌>>=◌, ◌>>◌, query, execute, or_fail,
  fail_if, find,
}
use wslvpn.Control.Ipam.{allocate, release_session, find_network, same_inet}

pub record CreateSessionRequest : Type 0 where
  pub network_id : ℕ
  pub device_id : ℕ
  pub posture : List PostureSignal

pub record CreateSessionResponse : Type 0 where
  pub session : Session
  pub decision : PolicyDecision
  pub wireguard : ClientWireGuardConfig

-- The entries of the audit log, built the way `AuditEntry` is.
pub new_entry : Text → AuditEntry
new_entry action = record {
  action = action;
  decision = none;
  actor_type = system;
  actor_id = none;
  user_id = none;
  device_id = none;
  resource = none;
  policy_id = none;
  policy_version = none;
  git_commit = none;
  details = no_details;
}

abbrev pub or_some : Option ℕ → ℕ → Option ℕ
or_some none id = some id
or_some (some a) id = some a

pub by_user : ℕ → Text → AuditEntry → AuditEntry
by_user id email entry = record entry {
  actor_type = user;
  actor_id = some email;
  user_id = or_some entry.user_id id;
}

-- `if let (Some(id), Some(version)) = …`.
pub with_policy : Option ℕ → Option ℤ → AuditEntry → AuditEntry
with_policy (some id) (some version) entry = record entry {
  policy_id = some id;
  policy_version = some version;
}
with_policy (some id) none entry = entry
with_policy none version entry = entry

pub session_entry :
    Text → ℕ → Text → CreateSessionRequest → NetworkRow → PolicyDecision → Details → AuditEntry
unfolding new_entry by_user with_policy
session_entry verdict user_id email req network decision details =
    with_policy decision.policy_id decision.policy_version
      (record (by_user user_id email (new_entry (codes "session.create"))) {
        decision = some verdict;
        device_id = some req.device_id;
        resource = some network.name;
        git_commit = decision.git_commit;
        details = details;
      })

-- `AuditService::record`.
pub record_entry : AuditEntry → Service (Unit {0})
record_entry entry = execute λ t. record t { audit_events = entry ∷ t.audit_events }

pub find_device : ℕ → ℕ → Database → Option DeviceRow
find_device device_id user_id tables =
    find (λ d. d.id == device_id && d.user_id == user_id) tables.devices

-- `ORDER BY last_heartbeat_at DESC NULLS LAST`.
abbrev pub before_heartbeat : Option ℤ → Option ℤ → Bool
before_heartbeat none none = false
before_heartbeat none (some b) = true
before_heartbeat (some a) none = false
before_heartbeat (some a) (some b) = earlier a b

pub newest : List GatewayRow → Option GatewayRow
newest [] = none
newest (g ∷ gateways) = elim (newest gateways) [
  | none ↦ some g
  | some best ↦
      if before_heartbeat g.last_heartbeat_at best.last_heartbeat_at then some best else some g
]

abbrev pub serves : ℕ → Option ℕ → Bool
serves id none = false
serves id (some network) = network == id

pub find_gateway : ℕ → Database → Option GatewayRow
unfolding newest
find_gateway network_id tables =
    newest (filter (λ g. serves network_id g.network_id) tables.gateways)

-- `GroupService::user_group_names`.
pub user_group_names : ℕ → Database → List Text
user_group_names user_id tables =
    map (λ m. m.group_name) (filter (λ m. m.user_id == user_id) tables.memberships)

pub read_documents : List PolicyRow → Option (List AccessPolicyDocument)
read_documents [] = some []
read_documents (row ∷ rows) = elim row.document [
  | none ↦ none
  | some document ↦ elim (read_documents rows) [
    | none ↦ none
    | some documents ↦ some (document ∷ documents)
  ]
]

pub load_active_policies : Service (List AccessPolicyDocument)
load_active_policies = do
  documents ← query (λ t. read_documents t.policies)
  or_fail documents internal

-- The decision with the row of the policy that made it.
abbrev pub with_row : PolicyDecision → Option PolicyRow → PolicyDecision
with_row decision none = decision
with_row decision (some row) = record decision {
  policy_id = some row.id;
  policy_version = some row.current_version;
  git_commit = row.git_commit;
}

pub with_policy_meta : PolicyDecision → Database → PolicyDecision
with_policy_meta decision tables = elim decision.policy_name [
  | none ↦ decision
  | some name ↦ with_row decision (find (λ p. text_eq p.name name) tables.policies)
]

abbrev pub input_of : Text → List Text → NetworkRow → CreateSessionRequest → EvaluationInput
input_of email groups network req = record {
  user_email = email;
  groups = groups;
  resource = network.name;
  posture = req.posture;
  device_managed = device_reports_managed req.posture;
}

-- What `create` has found out when it lets a session be opened.
pub record Admission : Type 0 where
  pub device : DeviceRow
  pub network : NetworkRow
  pub gateway : GatewayRow
  pub decision : PolicyDecision

-- A denial is recorded, then refused.
pub refuse : AuditEntry → Service (Unit {0})
refuse entry = do record_entry entry; fail forbidden

-- `create`, up to the decision.
pub admit : ℕ → Text → CreateSessionRequest → Service Admission
admit user_id email req = do
  owned ← query (find_device req.device_id user_id)
  device ← or_fail owned not_found
  fail_if device.revoked forbidden
  known ← query (find_network req.network_id)
  network ← or_fail known not_found
  serving ← query (find_gateway req.network_id)
  gateway ← or_fail serving (bad_request (codes "no gateway registered for network"))
  groups ← query (user_group_names user_id)
  policies ← load_active_policies
  decision ← query (with_policy_meta (evaluate policies (input_of email groups network req)))
  if decision.allow
      then pure tt
      else refuse
          (session_entry (codes "deny") user_id email req network decision (denial decision.reason))
  pure (record { device = device; network = network; gateway = gateway; decision = decision })

abbrev pub unspecified : Inet
unspecified = record { ip = v4 (0 ∷ 0 ∷ 0 ∷ 0 ∷ []); prefix = 32 }

unfoldable pub insert_session : SessionRow → Service (Unit {0})
insert_session row =
    insert_unless (λ t. any (λ s. s.id == row.id) t.sessions)
      (λ t. record t { sessions = row ∷ t.sessions })

-- `wireguard_peers` has at most one peer of a session.
unfoldable pub insert_peer : PeerRow → Service (Unit {0})
insert_peer row =
    insert_unless (λ t. any (λ p. p.session_id == row.session_id) t.wireguard_peers)
      (λ t. record t { wireguard_peers = row ∷ t.wireguard_peers })

abbrev pub with_ip : ℕ → Inet → SessionRow → SessionRow
with_ip id ip s = if s.id == id then record s { assigned_ip = ip } else s

unfoldable pub assign_ip : ℕ → Inet → Service (Unit {0})
assign_ip id ip = execute λ t. record t { sessions = map (with_ip id ip) t.sessions }

abbrev pub bumped : (GatewayRow → Bool) → GatewayRow → GatewayRow
bumped p g = if p g then record g { config_version = suc g.config_version } else g

pub bump_gateways : (Database → GatewayRow → Bool) → Service (Unit {0})
bump_gateways p = execute λ t. record t { gateways = map (bumped (p t)) t.gateways }

-- `NetworkService::routes_for`.
pub routes_for : Networks → ℕ → Database → List Text
routes_for nets network_id tables =
    map (λ r. nets.to_string r.destination) (filter (λ r. r.network_id == network_id) tables.routes)

-- `unwrap_or(8 * 3600)`.
abbrev pub duration_of : PolicyDecision → ℤ
duration_of decision = elim decision.session_duration_secs [
  | none ↦ pos (8 * 3600)
  | some secs ↦ secs
]

-- `create`, from the decision on.
unfoldable pub open_session :
    Networks
    → ℤ
    → ℕ
    → ℕ
    → ℕ
    → Text
    → CreateSessionRequest
    → Admission
    → Service CreateSessionResponse
open_session nets now session_id peer_id user_id email req admission = do
  let decision = admission.decision
  let gateway = admission.gateway
  let expires_at = now +ℤ duration_of decision
  insert_session (record {
    id = session_id;
    user_id = user_id;
    device_id = req.device_id;
    gateway_id = gateway.id;
    network_id = req.network_id;
    policy_id = decision.policy_id;
    policy_version = decision.policy_version;
    assigned_ip = unspecified;
    status = active;
    created_at = now;
    expires_at = expires_at;
  })
  assigned ← allocate nets req.network_id session_id
  assigned_ip ← or_fail (nets.parse assigned) (bad_request nets.error_text)
  assign_ip session_id assigned_ip
  routes ← query (routes_for nets req.network_id)
  insert_peer (record {
    id = peer_id;
    session_id = session_id;
    gateway_id = gateway.id;
    device_id = req.device_id;
    public_key = admission.device.wireguard_public_key;
    allowed_ips = assigned_ip ∷ [];
    expires_at = expires_at;
  })
  bump_gateways (λ _ g. g.id == gateway.id)
  record_entry (
      session_entry (codes "allow") user_id email req admission.network decision
        (session_opened session_id assigned expires_at))
  pure (record {
    session = record {
      id = session_id;
      user_id = user_id;
      device_id = req.device_id;
      gateway_id = gateway.id;
      network_id = req.network_id;
      policy_id = decision.policy_id;
      policy_version = decision.policy_version;
      assigned_ip = assigned;
      status = active;
      created_at = now;
      expires_at = expires_at;
    };
    decision = decision;
    wireguard = record {
      interface_address = assigned;
      dns = admission.network.dns_servers;
      peer_public_key = gateway.public_key;
      peer_endpoint = gateway.endpoint;
      allowed_ips = if is_empty routes then nets.to_string admission.network.cidr ∷ [] else routes;
      persistent_keepalive = 25;
    };
  })

unfoldable pub create :
    Networks → ℤ → ℕ → ℕ → ℕ → Text → CreateSessionRequest → Service CreateSessionResponse
create nets now session_id peer_id user_id email req = do
  admission ← admit user_id email req
  open_session nets now session_id peer_id user_id email req admission

abbrev pub is_active : SessionStatus → Bool
is_active active = true
is_active expired = false
is_active revoked = false

-- The rows of the query in `identity_by_ip`: the session with its user.
abbrev pub resolves : ℤ → Inet → SessionRow → Bool
resolves now host s = same_inet s.assigned_ip host && is_active s.status && earlier now s.expires_at

pub find_user : ℕ → Database → Option UserRow
find_user id tables = find (λ u. u.id == id && u.active) tables.users

-- The candidate that was created last.
pub latest_identity : ℤ → Inet → Database → List SessionRow → Option (SessionRow × UserRow)
latest_identity now host tables [] = none
latest_identity now host tables (s ∷ sessions) =
    let rest = latest_identity now host tables sessions in
    if resolves now host s
    then elim (find_user s.user_id tables) [
      | none ↦ rest
      | some u ↦ elim rest [
        | none ↦ some (s, u)
        | some (best, owner) ↦
            if earlier s.created_at best.created_at then some (best, owner) else some (s, u)
      ]
    ]
    else rest

abbrev pub host_prefix : IpAddr → ℕ
host_prefix (v4 octets) = 32
host_prefix (v6 octets) = 128

pub identity_by_ip : Networks → ℤ → IpAddr → Service (Option SessionIdentity)
identity_by_ip nets now ip = do
  host ← or_fail (nets.new ip (host_prefix ip)) (bad_request nets.error_text)
  row ← query (λ t. latest_identity now host t t.sessions)
  query (λ t. elim row [
    | none ↦ none
    | some (s, u) ↦ some (record {
      session_id = s.id;
      user_id = s.user_id;
      email = u.email;
      device_id = s.device_id;
      groups = user_group_names s.user_id t;
      assigned_ip = nets.to_string s.assigned_ip;
      expires_at = s.expires_at;
    })
  ])

abbrev pub revoked_row : ℕ → SessionRow → SessionRow
revoked_row id s = if s.id == id && is_active s.status then record s { status = revoked } else s

unfoldable pub delete_peers : ℕ → Service (Unit {0})
delete_peers session_id = execute λ t. record t {
  wireguard_peers = filter (λ p. not (p.session_id == session_id)) t.wireguard_peers;
}

-- What `revoke` does when its first statement affects a row.
unfoldable pub withdraw : ℕ → Service Bool
withdraw id = do
  execute (λ t. record t { sessions = map (revoked_row id) t.sessions })
  delete_peers id
  release_session id
  bump_gateways (λ t g. any (λ s. s.id == id && s.gateway_id == g.id) t.sessions)
  pure true

unfoldable pub revoke : ℕ → Service Bool
revoke id = do
  affected ← query (λ t. any (λ s. s.id == id && is_active s.status) t.sessions)
  if affected then withdraw id else pure false

unfoldable pub revoke_all : List ℕ → Service (Unit {0})
revoke_all [] = pure tt
revoke_all (id ∷ ids) = do revoke id; revoke_all ids

unfoldable pub revoke_user_sessions : ℕ → Service (Unit {0})
revoke_user_sessions user_id = do
  ids ←
      query
        (λ t. map (λ s. s.id) (filter (λ s. s.user_id == user_id && is_active s.status) t.sessions))
  revoke_all ids

unfoldable pub revoke_device_sessions : ℕ → Service (Unit {0})
revoke_device_sessions device_id = do
  ids ← query (λ t.
      map (λ s. s.id) (filter (λ s. s.device_id == device_id && is_active s.status) t.sessions))
  revoke_all ids
