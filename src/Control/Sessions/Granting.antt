-- ===== src/Control/Sessions/Granting.antt =====
-- Who gets past the first part of `create` of crates/wsl-control/src/services/sessions.rs.
use wslvpn.Base.{
  ℕ, ◌≡◌, refl, ◌∙◌, ◌⊎◌, inl, inr, true, false, some, List, ◌∷◌, Bool-cases, Option-cases,
}
use wslvpn.Base.Text.{Text, codes}
use wslvpn.Policy.{AccessPolicyDocument, EvaluationInput, PolicyDecision, evaluate}
use wslvpn.Policy.Evaluation.{evaluate-Decides}
use wslvpn.Control.Database.{DeviceRow, NetworkRow, GatewayRow, AuditEntry, Database, denial, ◌>>=◌}
use wslvpn.Control.Database.Leads.{Post}
use wslvpn.Control.Ipam.{find_network}
use wslvpn.Control.Sessions.{
  CreateSessionRequest, Admission, find_device, find_gateway, user_group_names, read_documents,
  session_entry, load_active_policies, with_policy_meta, input_of, record_entry, refuse, admit,
}
use wslvpn.Control.Sessions.Entitlement.{
  IsEntitled, IsAnnotated-allow, found_device, found_network, found_gateway, read_documents-map,
  input_of-IsAsked, with_policy_meta-IsAnnotated,
}

-- A refusal changes nothing but the audit log, which it may grow by one entry.
abbrev pub Refused : Database → Database → Type 0
Refused before after =
    (after ≡ before)
    ⊎ ((entry : AuditEntry) × (after
          ≡ record before { audit_events = entry ∷ before.audit_events }))

module _ (user_id : ℕ) (email : Text) (req : CreateSessionRequest) (t : Database)
    (device : DeviceRow) (network : NetworkRow) (gateway : GatewayRow)
    (policies : List AccessPolicyDocument) where
  abbrev question : EvaluationInput
  question = input_of email (user_group_names user_id t) network req

  abbrev answered_by : PolicyDecision
  answered_by = with_policy_meta (evaluate policies question) t

  -- What the queries found, and the decision, are what entitles the request.
  entitled :
      find_device req.device_id user_id t ≡ some device
      → device.revoked ≡ false
      → find_network req.network_id t ≡ some network
      → find_gateway req.network_id t ≡ some gateway
      → read_documents t.policies ≡ some policies
      → answered_by.allow ≡ true
      → IsEntitled t user_id email req
          (record { device = device; network = network; gateway = gateway; decision = answered_by })
  entitled owned usable known served readable e = record {
    device_known = (found_device t req.device_id user_id owned).0;
    device_asked = (found_device t req.device_id user_id owned).1;
    device_owned = (found_device t req.device_id user_id owned).2;
    device_usable = usable;
    network_known = (found_network t req.network_id known).0;
    network_asked = (found_network t req.network_id known).1;
    gateway_known = (found_gateway t req.network_id served).0;
    gateway_serves = (found_gateway t req.network_id served).1;
    policies = policies;
    stored = read_documents-map t.policies policies readable;
    input = question;
    asked = input_of-IsAsked t user_id email req network;
    verdict = evaluate policies question;
    decided = evaluate-Decides policies question;
    allowed = IsAnnotated-allow t _ _ (with_policy_meta-IsAnnotated _ t) ∙ e;
    annotated = with_policy_meta-IsAnnotated _ t;
  }

-- The part of `create` before the first session row is written goes on only with an admission that the
-- request is entitled to, in the tables as they were: the device is the one asked for, the user's, and not
-- revoked; the network is the one asked for, and the gateway serves it; and the stored policies allow
-- it, asked for the user, the groups of the user, the name of the network and the posture of the
-- request. The admission carries their decision, with the stored policy that it names. Where
-- it fails, at most an audit entry has been written.
pub admit-IsEntitled :
    (user_id : ℕ) (email : Text) (req : CreateSessionRequest) (t : Database)
    → Post
        (λ (admission : Admission) after. (after ≡ t) × IsEntitled t user_id email req admission)
        (Refused t)
        (admit user_id email req t).0
        (admit user_id email req t).1
unfolding admit load_active_policies refuse record_entry ◌>>=◌ with_policy_meta
admit-IsEntitled user_id email req t = elim (Option-cases (find_device req.device_id user_id t)) [
  | inl e ↦ rw e (inl refl)
  | inr (device, owned) ↦ rw owned (elim (Bool-cases device.revoked) [
    | inl e ↦ rw e (inl refl)
    | inr usable ↦ simp usable (elim (Option-cases (find_network req.network_id t)) [
      | inl e ↦ rw e (inl refl)
      | inr (network, known) ↦ rw known (elim (Option-cases (find_gateway req.network_id t)) [
        | inl e ↦ rw e (inl refl)
        | inr (gateway, served) ↦ rw served (elim (Option-cases (read_documents t.policies)) [
          | inl e ↦ rw e (inl refl)
          | inr (policies, readable) ↦
              let decision =
                with_policy_meta
                  (evaluate policies (input_of email (user_group_names user_id t) network req)) t in
              rw readable (elim (Bool-cases decision.allow) [
                | inl e ↦ simp e (
                  refl,
                  entitled user_id email req t device network gateway policies owned usable known
                      served readable e,
                )
                | inr e ↦ rw e (
                    inr (
                      session_entry (codes "deny") user_id email req network decision
                          (denial decision.reason),
                      refl,
                    ))
              ])
        ])
      ])
    ])
  ])
]
