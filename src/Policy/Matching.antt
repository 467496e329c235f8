-- ===== src/Policy/Matching.antt =====
-- The tests of crates/wsl-policy/src/lib.rs against what a policy asks.
use wslvpn.Base.{
  ◌≡◌, refl, ◌↔◌, ◌⊎◌, inl, inr, Bool, true, false, ◌&&◌, ◌||◌, Option, none, some, List, [], ◌∷◌,
  arith, if◌then◌else◌, is_empty, any, all, All, Any, any_iff, all_iff,
}
use wslvpn.Base.Text.{Text, codes, text_eq, text_eq_iff, has_text, has_text_iff}
use wslvpn.Policy.{
  PostureResult, pass, unsupported, PostureSignal, AccessPolicyDocument, EvaluationInput,
  matches_subjects, matches_resource, is_pass, is_pass_or_unsupported, posture_ok, device_ok,
  device_reports_managed,
}
use wslvpn.Policy.Spec.{Names, Covers, Passes, PostureMeets, DeviceMeets}

is_pass_iff : (r : PostureResult) → (is_pass r ≡ true) ↔ (r ≡ pass)
is_pass_iff r = ground arith

passing_iff :
    (name : Text) (s : PostureSignal)
    → (text_eq s.name name && is_pass s.result ≡ true) ↔ ((s.name ≡ name) × (s.result ≡ pass))
passing_iff name s = ground (arith, text_eq_iff s.name name, is_pass_iff s.result)

-- A policy with no subject names nobody, so the guard for that changes nothing.
subjects_iff :
    (groups users : List Text) (email : Text) (of_user : List Text)
    → ((if is_empty groups && is_empty users
          then false
          else any (λ g. has_text g of_user) groups || has_text email users)
        ≡ true)
      ↔ (Any (λ g. Any (λ ug. ug ≡ g) of_user) groups ⊎ Any (λ u. u ≡ email) users)
subjects_iff [] [] email of_user = (λ h. cc, λ h. elim h [ inl a ↦ absurd a | inr a ↦ absurd a ])
subjects_iff (g ∷ groups) users email of_user =
    ground (arith, any_iff _ (λ g. has_text_iff g of_user) (g ∷ groups), has_text_iff email users)
subjects_iff [] (u ∷ users) email of_user = ground (arith, has_text_iff email (u ∷ users))

pub matches_subjects_iff :
    (policy : AccessPolicyDocument) (input : EvaluationInput)
    → (matches_subjects policy input ≡ true) ↔ Names policy input
unfolding matches_subjects
matches_subjects_iff policy input =
    subjects_iff policy.spec.subjects.groups policy.spec.subjects.users input.user_email
      input.groups

pub matches_resource_iff :
    (policy : AccessPolicyDocument) (input : EvaluationInput)
    → (matches_resource policy input ≡ true) ↔ Covers policy input
unfolding matches_resource
matches_resource_iff policy input =
    any_iff _ (λ r. ground (arith, text_eq_iff r input.resource, text_eq_iff r (codes "*")))
      policy.spec.resources

pass_or_unsupported_iff :
    (s : PostureSignal)
    → (is_pass_or_unsupported s.result ≡ true) ↔ ((s.result ≡ pass) ⊎ (s.result ≡ unsupported))
pass_or_unsupported_iff s = ground arith

named_iff :
    (posture : List PostureSignal) (required : List Text)
    → (all (λ name. any (λ s. text_eq s.name name && is_pass s.result) posture) required ≡ true)
      ↔ All (λ name. Passes name posture) required
named_iff posture required = all_iff _ (λ name. any_iff _ (passing_iff name) posture) required

blanket_iff :
    (posture : List PostureSignal)
    → (all (λ s. is_pass_or_unsupported s.result) posture ≡ true)
      ↔ All (λ s. (s.result ≡ pass) ⊎ (s.result ≡ unsupported)) posture
blanket_iff posture = all_iff _ pass_or_unsupported_iff posture

posture_ok_iff :
    (required : List Text) (compliant : Option Bool) (posture : List PostureSignal)
    → (posture_ok required compliant posture ≡ true) ↔ PostureMeets required compliant posture
unfolding posture_ok
posture_ok_iff (r ∷ required) compliant posture = (
  λ h. ((named_iff posture (r ∷ required)).0 h, λ e _. cc),
  λ m. (named_iff posture (r ∷ required)).1 m.0,
)
posture_ok_iff [] none posture = (λ _. (tt, λ _ e. cc), λ _. refl)
posture_ok_iff [] (some false) posture = (λ _. (tt, λ _ e. cc), λ _. refl)
posture_ok_iff [] (some true) [] = (λ h. cc, λ m. absurd ((m.1 refl refl).0 refl))
posture_ok_iff [] (some true) (s ∷ posture) = (
  λ h. (tt, λ _ _. (λ e. cc, (blanket_iff (s ∷ posture)).0 h)),
  λ m. (blanket_iff (s ∷ posture)).1 (m.1 refl refl).1,
)

-- The device test of the code, in both directions: with signals required by name each of them has
-- to be reported as passed; with none required and `compliant: true` at least one signal has to be
-- reported and each has to have passed or be unsupported; and `managed: true` needs the device to
-- be managed.
pub device_ok_iff :
    (policy : AccessPolicyDocument) (input : EvaluationInput)
    → (device_ok policy input ≡ true) ↔ DeviceMeets policy input
unfolding device_ok
device_ok_iff policy input = ground (
  arith,
  posture_ok_iff policy.spec.device.required_signals policy.spec.device.compliant input.posture,
)

-- The device counts as managed exactly if the posture has a passed signal of that name.
pub device_reports_managed_iff :
    (posture : List PostureSignal)
    → (device_reports_managed posture ≡ true) ↔ Passes (codes "device_management") posture
unfolding device_reports_managed
device_reports_managed_iff posture =
    any_iff (λ s. text_eq s.name (codes "device_management") && is_pass s.result)
      (λ s. ground (arith, text_eq_iff s.name (codes "device_management"))) posture
