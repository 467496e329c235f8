-- ===== src/Control/Sessions/Entitlement.antt =====
-- What entitles a request to a session, in the words of the tables, and what the queries of `create` of
-- crates/wsl-control/src/services/sessions.rs find.
use wslvpn.Base.{
  ℕ, ◌≡◌, ◌≢◌, refl, sym, ap, subst, some_inj, ◌∙◌, ◌↔◌, ◌⊎◌, inl, inr, true, false, ◌&&◌, some,
  List, [], ◌∷◌, map, filter, arith, ◌==◌, ==_iff, Bool-cases, Option-cases, All, Any, All-mono,
  Any-mono, All-filter_passed,
}
use wslvpn.Base.Text.{Text, text_eq, text_eq_iff, codes}
use wslvpn.Policy.{AccessPolicyDocument, EvaluationInput, PolicyDecision}
use wslvpn.Policy.Spec.{Passes, Decides}
use wslvpn.Policy.Matching.{device_reports_managed_iff}
use wslvpn.Control.Database.{
  DeviceRow, NetworkRow, GatewayRow, PolicyRow, MembershipRow, Database, find,
}
use wslvpn.Control.Database.Found.{find-Any, find-none, All-self}
use wslvpn.Control.Ipam.{find_network}
use wslvpn.Control.Sessions.{
  CreateSessionRequest, Admission, find_device, newest, before_heartbeat, serves, find_gateway,
  user_group_names, read_documents, with_policy_meta, with_row, input_of,
}

-- What the policies are asked: the user's address, the groups that the user is a member of, the name of
-- the network, and the posture that the request reports. The device is managed if that posture says so.
pub record IsAsked (t : Database) (user_id : ℕ) (email : Text) (req : CreateSessionRequest)
    (network : NetworkRow) (input : EvaluationInput) : Type 0 where
  pub asker : input.user_email ≡ email
  pub member :
      (g : Text)
      → Any (λ x. x ≡ g) input.groups
        ↔ Any (λ m. (m.user_id ≡ user_id) × (m.group_name ≡ g)) t.memberships
  pub target : input.resource ≡ network.name
  pub reported : input.posture ≡ req.posture
  pub managed : (input.device_managed ≡ true) ↔ Passes (codes "device_management") req.posture

-- The decision, with the number, the version and the commit of the stored policy that has its name, and
-- unchanged if there is none.
abbrev pub IsAnnotated : Database → PolicyDecision → PolicyDecision → Type 0
IsAnnotated t d decision =
    ((decision ≡ d) × All (λ row. d.policy_name ≢ some row.name) t.policies)
    ⊎ Any
        (λ row.
          (d.policy_name ≡ some row.name)
          × (decision ≡ record d {
            policy_id = some row.id;
            policy_version = some row.current_version;
            git_commit = row.git_commit;
          }))
        t.policies

-- What has to be so for an admission: its device is one of the user's, the one that was asked for, and
-- not revoked; its network is the one that was asked for, and its gateway serves that network; and the
-- stored policies, asked with what the tables and the request say, decide to allow.
pub record IsEntitled (t : Database) (user_id : ℕ) (email : Text) (req : CreateSessionRequest)
    (admission : Admission) : Type 0 where
  pub device_known : Any (λ d. d ≡ admission.device) t.devices
  pub device_asked : admission.device.id ≡ req.device_id
  pub device_owned : admission.device.user_id ≡ user_id
  pub device_usable : admission.device.revoked ≡ false
  pub network_known : Any (λ n. n ≡ admission.network) t.networks
  pub network_asked : admission.network.id ≡ req.network_id
  pub gateway_known : Any (λ g. g ≡ admission.gateway) t.gateways
  pub gateway_serves : admission.gateway.network_id ≡ some req.network_id
  pub policies : List AccessPolicyDocument
  pub stored : map (λ row. row.document) t.policies ≡ map some policies
  pub input : EvaluationInput
  pub asked : IsAsked t user_id email req admission.network input
  pub verdict : PolicyDecision
  pub decided : Decides input policies verdict
  pub allowed : verdict.allow ≡ true
  pub annotated : IsAnnotated t verdict admission.decision

pub found_device :
    (t : Database) (device_id user_id : ℕ) {device : DeviceRow}
    → find_device device_id user_id t ≡ some device
    → Any (λ d. d ≡ device) t.devices × (device.id ≡ device_id) × (device.user_id ≡ user_id)
unfolding find_device
found_device t device_id user_id {device} e =
    let (there, passed) = find-Any (λ d. d.id == device_id && d.user_id == user_id) t.devices e in
    (there, ground arith, ground arith)

pub found_network :
    (t : Database) (network_id : ℕ) {network : NetworkRow}
    → find_network network_id t ≡ some network
    → Any (λ n. n ≡ network) t.networks × (network.id ≡ network_id)
unfolding find_network
found_network t network_id {network} e =
    let (there, passed) = find-Any (λ n. n.id == network_id) t.networks e in
    (there, (==_iff _ _).0 passed)

newest-All :
    (P : GatewayRow → Type 0) (gateways : List GatewayRow) (g : GatewayRow)
    → All P gateways
    → newest gateways ≡ some g
    → P g
unfolding newest
newest-All P [] g h e = cc
newest-All P (x ∷ gateways) g h e = elim (Option-cases (newest gateways)) [
  | inl n ↦ subst P (ground arith) h.0
  | inr (best, n) ↦
      elim (Bool-cases (before_heartbeat x.last_heartbeat_at best.last_heartbeat_at)) [
        | inl b ↦ subst P (ground arith) (newest-All P gateways best h.1 n)
        | inr b ↦ subst P (ground arith) h.0
      ]
]

pub found_gateway :
    (t : Database) (network_id : ℕ) {gateway : GatewayRow}
    → find_gateway network_id t ≡ some gateway
    → Any (λ g. g ≡ gateway) t.gateways × (gateway.network_id ≡ some network_id)
unfolding find_gateway
found_gateway t network_id {gateway} e =
    newest-All (λ x. Any (λ g. g ≡ x) t.gateways × (x.network_id ≡ some network_id))
      (filter (λ g. serves network_id g.network_id) t.gateways) gateway
      (All-filter_passed (λ g. serves network_id g.network_id)
        (λ g passed there. (there, ground arith)) t.gateways (All-self t.gateways))
      e

pub read_documents-map :
    (rows : List PolicyRow) (documents : List AccessPolicyDocument)
    → read_documents rows ≡ some documents
    → map (λ row. row.document) rows ≡ map some documents
unfolding read_documents
read_documents-map [] documents e = ground arith
read_documents-map (row ∷ rows) documents e = elim (Option-cases row.document) [
  | inl d ↦ absurd (ground arith)
  | inr (document, d) ↦ elim (Option-cases (read_documents rows)) [
    | inl r ↦ absurd (ground arith)
    | inr (rest, r) ↦
        let same : document ∷ rest ≡ documents = ground arith in
        subst (λ ds. map (λ (x : PolicyRow). x.document) (row ∷ rows) ≡ map some ds) same
          (rw (d, read_documents-map rows rest r) refl)
  ]
]

member_of :
    (user_id : ℕ) (g : Text) (rows : List MembershipRow)
    → Any (λ x. x ≡ g) (map (λ m. m.group_name) (filter (λ m. m.user_id == user_id) rows))
      ↔ Any (λ m. (m.user_id ≡ user_id) × (m.group_name ≡ g)) rows
member_of user_id g [] = ground arith
member_of user_id g (m ∷ rows) = ground (arith, ==_iff m.user_id user_id, member_of user_id g rows)

pub input_of-IsAsked :
    (t : Database) (user_id : ℕ) (email : Text) (req : CreateSessionRequest) (network : NetworkRow)
    → IsAsked t user_id email req network (input_of email (user_group_names user_id t) network req)
unfolding user_group_names
input_of-IsAsked t user_id email req network = record {
  asker = refl;
  member = λ g. member_of user_id g t.memberships;
  target = refl;
  reported = refl;
  managed = device_reports_managed_iff req.posture;
}

pub with_policy_meta-IsAnnotated :
    (d : PolicyDecision) (t : Database) → IsAnnotated t d (with_policy_meta d t)
unfolding with_policy_meta
with_policy_meta-IsAnnotated d t = elim (Option-cases d.policy_name) [
  | inl e ↦
      let same : with_policy_meta d t ≡ d = ground (arith, e) in
      inl (same, All-mono (λ row h other. cc (e, other)) t.policies (All-self t.policies))
  | inr (name, e) ↦ elim (Option-cases (find (λ p. text_eq p.name name) t.policies)) [
    | inl f ↦
        let same : with_policy_meta d t ≡ d = ground (arith, e, f) in
        inl (
          same,
          All-mono
              (λ row other own. cc (other, (text_eq_iff row.name name).1 (some_inj (sym own ∙ e))))
              t.policies (find-none (λ p. text_eq p.name name) t.policies f),
        )
    | inr (row, f) ↦
        let (there, passed) = find-Any (λ p. text_eq p.name name) t.policies f in
        let found : with_policy_meta d t ≡ with_row d (some row) = ground (arith, e, f) in
        inr (
          Any-mono
            (λ other same.
              subst
                (λ x. (d.policy_name ≡ some x.name) × (with_policy_meta d t ≡ with_row d (some x)))
                (sym same) (e ∙ ap some (sym ((text_eq_iff row.name name).0 passed)), found))
            t.policies there)
  ]
]

pub IsAnnotated-allow :
    (t : Database) (d decision : PolicyDecision)
    → IsAnnotated t d decision
    → d.allow ≡ decision.allow
IsAnnotated-allow t d decision (inl h) = ap (λ x. x.allow) (sym h.0)
IsAnnotated-allow t d decision (inr h) = named t.policies h
  where
    named :
        (rows : List PolicyRow)
        → Any
            (λ row.
              (d.policy_name ≡ some row.name)
              × (decision ≡ record d {
                policy_id = some row.id;
                policy_version = some row.current_version;
                git_commit = row.git_commit;
              }))
            rows
        → d.allow ≡ decision.allow
    named [] a = absurd a
    named (row ∷ rows) (inl a) = ap (λ (x : PolicyDecision). x.allow) (sym a.1)
    named (row ∷ rows) (inr a) = named rows a
