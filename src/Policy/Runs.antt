-- ===== src/Policy/Runs.antt =====
-- Concrete documents and requests for the policy evaluation, and the theorems at them.
use wslvpn.Base.{◌≡◌, refl, ◌↔◌, inl, inr, true, none, some, List, [], ◌∷◌, Any}
use wslvpn.Base.Text.{Text, codes, text_eq}
use wslvpn.Policy.{
  pass, unsupported, PostureSignal, AccessPolicyDocument, EvaluationInput, default_session,
  default_action, evaluate, deny, grant, posture_not_met, device_ok, ok, Result, parse_policy_yaml,
  matches_subjects, matches_resource,
}
use wslvpn.Policy.Spec.{Applies, DeviceMeets, Decides}
use wslvpn.Policy.Matching.{device_ok_iff}
use wslvpn.Policy.Evaluation.{evaluate_iff, evaluate-allow, evaluate_no_posture}
use wslvpn.Policy.Documents.{parse_policy_yaml_iff}

abbrev developers_registry : AccessPolicyDocument
developers_registry = record {
  api_version = codes "wsl.io/v1";
  kind = codes "AccessPolicy";
  metadata = record { name = codes "developers-registry" };
  spec = record {
    subjects = record { groups = codes "developers" ∷ []; users = [] };
    resources = codes "registry" ∷ [];
    device = record { managed = some true; compliant = some true; required_signals = [] };
    session = default_session;
    action = default_action;
  };
}

abbrev signal : Text → PostureSignal
signal name = record { name = name; result = pass; detail = none }

abbrev healthy : List PostureSignal
healthy =
    signal (codes "disk_encryption")
    ∷ record { name = codes "device_management"; result = unsupported; detail = none }
    ∷ []

abbrev alice : List PostureSignal → EvaluationInput
alice posture = record {
  user_email = codes "alice@example.com";
  groups = codes "developers" ∷ [];
  resource = codes "registry";
  posture = posture;
  device_managed = true;
}

healthy_is_allowed : evaluate (developers_registry ∷ []) (alice healthy) ≡ grant developers_registry
unfolding evaluate matches_subjects matches_resource text_eq device_ok
healthy_is_allowed = refl

evaluate_iff_example :
    (evaluate (developers_registry ∷ []) (alice healthy) ≡ grant developers_registry)
    ↔ Decides (alice healthy) (developers_registry ∷ []) (grant developers_registry)
evaluate_iff_example =
    evaluate_iff (developers_registry ∷ []) (alice healthy) (grant developers_registry)

device_ok_iff_example :
    (device_ok developers_registry (alice []) ≡ true) ↔ DeviceMeets developers_registry (alice [])
device_ok_iff_example = device_ok_iff developers_registry (alice [])

evaluate-allow_example :
    Any
      (λ p.
        Applies p (alice healthy)
        × DeviceMeets p (alice healthy)
        × (p.spec.action.connect ≡ true)
        × (evaluate (developers_registry ∷ []) (alice healthy) ≡ grant p))
      (developers_registry ∷ [])
unfolding evaluate matches_subjects matches_resource text_eq device_ok
evaluate-allow_example = evaluate-allow (developers_registry ∷ []) (alice healthy) refl

evaluate_no_posture_example :
    evaluate (developers_registry ∷ []) (alice [])
    ≡ deny (some (codes "developers-registry")) posture_not_met
evaluate_no_posture_example =
    evaluate_no_posture developers_registry [] (alice []) (inl (inl (inl refl)), inl (inl refl))
      refl (inr refl)

parse_policy_yaml_iff_example :
    (parse_policy_yaml (λ _. ok developers_registry) [] ≡ ok developers_registry) ↔ (
      (◌≡◌ {A = Result AccessPolicyDocument} (ok developers_registry) (ok developers_registry))
      × (◌≡◌ {A = Text} (codes "wsl.io/v1") (codes "wsl.io/v1"))
      × (◌≡◌ {A = Text} (codes "AccessPolicy") (codes "AccessPolicy"))
      × (◌≡◌ {A = Text} (codes "developers-registry") [] → ⊥))
parse_policy_yaml_iff_example =
    parse_policy_yaml_iff (λ _. ok developers_registry) [] developers_registry
