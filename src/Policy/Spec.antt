-- ===== src/Policy/Spec.antt =====
-- What a policy asks, stated without the tests of the code: the meaning of crates/wsl-policy/src/lib.rs.
use wslvpn.Base.{◌≡◌, ◌≢◌, ◌⊎◌, Bool, true, false, Option, none, some, List, [], ◌∷◌, All, Any}
use wslvpn.Base.Text.{Text, codes}
use wslvpn.Policy.{
  pass, unsupported, PostureSignal, AccessPolicyDocument, EvaluationInput, PolicyDecision, deny,
  grant, posture_not_met, connect_is_false, no_matching_policy,
}

-- The policy names the user, or a group that the user is in.
abbrev pub Names : AccessPolicyDocument → EvaluationInput → Type 0
Names policy input =
    Any (λ g. Any (λ ug. ug ≡ g) input.groups) policy.spec.subjects.groups
    ⊎ Any (λ u. u ≡ input.user_email) policy.spec.subjects.users

-- It names the resource, or all resources by `*`.
abbrev pub Covers : AccessPolicyDocument → EvaluationInput → Type 0
Covers policy input = Any (λ r. (r ≡ input.resource) ⊎ (r ≡ codes "*")) policy.spec.resources

abbrev pub Applies : AccessPolicyDocument → EvaluationInput → Type 0
Applies policy input = Names policy input × Covers policy input

-- The device reports a signal of this name that passed.
abbrev pub Passes : Text → List PostureSignal → Type 0
Passes name posture = Any (λ s. (s.name ≡ name) × (s.result ≡ pass)) posture

-- What the posture has to show. Named signals replace the blanket check.
abbrev pub PostureMeets : List Text → Option Bool → List PostureSignal → Type 0
PostureMeets required compliant posture =
    All (λ name. Passes name posture) required
    × (required ≡ []
        → compliant ≡ some true
        → (posture ≢ []) × All (λ s. (s.result ≡ pass) ⊎ (s.result ≡ unsupported)) posture)

abbrev pub DeviceMeets : AccessPolicyDocument → EvaluationInput → Type 0
DeviceMeets policy input =
    (policy.spec.device.managed ≡ some true → input.device_managed ≡ true)
    × PostureMeets policy.spec.device.required_signals policy.spec.device.compliant input.posture

-- The decision as a relation: policies are read in order, and the first that applies decides.
pub data Decides (input : EvaluationInput)
    : List AccessPolicyDocument → PolicyDecision → Type 0 where
  nothing_applies : Decides input [] (deny none no_matching_policy)
  skips :
      {p : AccessPolicyDocument} {ps : List AccessPolicyDocument} {d : PolicyDecision}
      → ¬ Applies p input
      → Decides input ps d
      → Decides input (p ∷ ps) d
  device_fails :
      {p : AccessPolicyDocument} {ps : List AccessPolicyDocument}
      → Applies p input
      → ¬ DeviceMeets p input
      → Decides input (p ∷ ps) (deny (some p.metadata.name) posture_not_met)
  connect_fails :
      {p : AccessPolicyDocument} {ps : List AccessPolicyDocument}
      → Applies p input
      → DeviceMeets p input
      → p.spec.action.connect ≡ false
      → Decides input (p ∷ ps) (deny (some p.metadata.name) connect_is_false)
  allows :
      {p : AccessPolicyDocument} {ps : List AccessPolicyDocument}
      → Applies p input
      → DeviceMeets p input
      → p.spec.action.connect ≡ true
      → Decides input (p ∷ ps) (grant p)
