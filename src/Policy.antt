-- ===== src/Policy.antt =====
-- crates/wsl-policy/src/lib.rs, and the posture types of crates/wsl-types/src/device.rs.
-- A text is the list of its code points. A session's duration is its whole number of seconds.
-- `serde_yaml::from_str` is the parameter `from_yaml` of `parse_policy_yaml`.
pub mod Spec
pub mod Matching
pub mod Evaluation
pub mod Documents
mod Runs
use wslvpn.Base.{
  ℕ, ◌*◌, Bool, true, false, not, ◌&&◌, ◌||◌, Option, none, some, List, [], ◌∷◌, if◌then◌else◌,
  is_empty, any, all,
}
use wslvpn.Base.Int.{ℤ, pos}
use wslvpn.Base.Text.{Text, codes, text_eq, has_text}

pub data PostureResult : Type 0 where
  pass fail unknown unsupported : PostureResult

pub record PostureSignal : Type 0 where
  pub name : Text
  pub result : PostureResult
  pub detail : Option Text

pub record PolicySubjects : Type 0 where
  pub groups : List Text
  pub users : List Text

pub record DeviceRequirements : Type 0 where
  pub managed : Option Bool
  pub compliant : Option Bool
  pub required_signals : List Text

pub record PolicyAction : Type 0 where
  pub connect : Bool

pub record SessionRequirements : Type 0 where
  pub duration : ℤ

pub record AccessPolicySpec : Type 0 where
  pub subjects : PolicySubjects
  pub resources : List Text
  pub device : DeviceRequirements
  pub session : SessionRequirements
  pub action : PolicyAction

pub record PolicyMetadata : Type 0 where
  pub name : Text

pub record AccessPolicyDocument : Type 0 where
  pub api_version : Text
  pub kind : Text
  pub metadata : PolicyMetadata
  pub spec : AccessPolicySpec

-- The `Default` instances that serde uses for a missing section.
abbrev pub default_device : DeviceRequirements
default_device = record { managed = none; compliant = some true; required_signals = [] }

abbrev pub default_session : SessionRequirements
default_session = record { duration = pos (8 * 3600) }

abbrev pub default_action : PolicyAction
default_action = record { connect = true }

-- An error carries the text that its message is made of.
pub data PolicyError : Type 0 where
  unsupported_api_version : Text → PolicyError
  unsupported_kind : Text → PolicyError
  name_required : PolicyError
  yaml : Text → PolicyError

pub data Result (A : Type 0) : Type 0 where
  ok : A → Result A
  err : PolicyError → Result A

check_document : AccessPolicyDocument → Result AccessPolicyDocument
check_document doc =
    if not (text_eq doc.api_version (codes "wsl.io/v1"))
    then err (unsupported_api_version doc.api_version)
    else if not (text_eq doc.kind (codes "AccessPolicy"))
    then err (unsupported_kind doc.kind)
    else if is_empty doc.metadata.name
    then err name_required
    else ok doc

pub parse_policy_yaml : (Text → Result AccessPolicyDocument) → Text → Result AccessPolicyDocument
unfolding check_document
parse_policy_yaml from_yaml text = elim (from_yaml text) [
  | ok doc ↦ check_document doc
  | err e ↦ err e
]

pub record EvaluationInput : Type 0 where
  pub user_email : Text
  pub groups : List Text
  pub resource : Text
  pub posture : List PostureSignal
  pub device_managed : Bool

pub data Reason : Type 0 where
  posture_not_met connect_is_false matched no_matching_policy : Reason

-- The fields `policy_id`, `policy_version` and `git_commit`, which are `None` in every decision
-- of `evaluate`, are filled in by the control plane.
pub record PolicyDecision : Type 0 where
  pub allow : Bool
  pub policy_id : Option ℕ
  pub policy_name : Option Text
  pub policy_version : Option ℤ
  pub git_commit : Option Text
  pub reason : Reason
  pub resources : List Text
  pub session_duration_secs : Option ℤ

abbrev pub deny : Option Text → Reason → PolicyDecision
deny name reason = record {
  allow = false;
  policy_id = none;
  policy_name = name;
  policy_version = none;
  git_commit = none;
  reason = reason;
  resources = [];
  session_duration_secs = none;
}

abbrev pub grant : AccessPolicyDocument → PolicyDecision
grant policy = record {
  allow = true;
  policy_id = none;
  policy_name = some policy.metadata.name;
  policy_version = none;
  git_commit = none;
  reason = matched;
  resources = policy.spec.resources;
  session_duration_secs = some policy.spec.session.duration;
}

pub matches_subjects : AccessPolicyDocument → EvaluationInput → Bool
matches_subjects policy input =
    let subjects = policy.spec.subjects in
    if is_empty subjects.groups && is_empty subjects.users
    then false
    else any (λ g. has_text g input.groups) subjects.groups
      || has_text input.user_email subjects.users

pub matches_resource : AccessPolicyDocument → EvaluationInput → Bool
matches_resource policy input =
    any (λ r. text_eq r input.resource || text_eq r (codes "*")) policy.spec.resources

abbrev pub is_pass : PostureResult → Bool
is_pass pass = true
is_pass _ = false

abbrev pub is_pass_or_unsupported : PostureResult → Bool
is_pass_or_unsupported pass = true
is_pass_or_unsupported unsupported = true
is_pass_or_unsupported _ = false

pub device_reports_managed : List PostureSignal → Bool
device_reports_managed = any (λ s. text_eq s.name (codes "device_management") && is_pass s.result)

-- `if let Some(true) = o`.
abbrev pub is_some_true : Option Bool → Bool
is_some_true (some true) = true
is_some_true (some false) = false
is_some_true none = false

-- The second half of `device_ok`: the named signals, else the blanket check.
posture_ok : List Text → Option Bool → List PostureSignal → Bool
posture_ok required compliant posture =
    if not (is_empty required)
    then all (λ name. any (λ s. text_eq s.name name && is_pass s.result) posture) required
    else if is_some_true compliant
    then if is_empty posture then false else all (λ s. is_pass_or_unsupported s.result) posture
    else true

pub device_ok : AccessPolicyDocument → EvaluationInput → Bool
unfolding posture_ok
device_ok policy input =
    if is_some_true policy.spec.device.managed && not input.device_managed
    then false
    else posture_ok policy.spec.device.required_signals policy.spec.device.compliant input.posture

pub evaluate : List AccessPolicyDocument → EvaluationInput → PolicyDecision
evaluate [] input = deny none no_matching_policy
evaluate (policy ∷ policies) input =
    let rest = evaluate policies input in
    if not (matches_subjects policy input)
    then rest
    else if not (matches_resource policy input)
    then rest
    else if not (device_ok policy input)
    then deny (some policy.metadata.name) posture_not_met
    else if not policy.spec.action.connect
    then deny (some policy.metadata.name) connect_is_false
    else grant policy
