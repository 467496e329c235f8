-- ===== src/Policy/Evaluation.antt =====
-- `evaluate` of crates/wsl-policy/src/lib.rs against the relation `Decides`.
use wslvpn.Base.{
  ◌≡◌, refl, ◌≢◌, ◌↔◌, ◌⊎◌, inl, inr, true, false, some, List, [], ◌∷◌, arith, Bool-cases, Any,
}
use wslvpn.Base.Text.{Text}
use wslvpn.Policy.{
  AccessPolicyDocument, EvaluationInput, PolicyDecision, deny, grant, posture_not_met,
  connect_is_false, matches_subjects, matches_resource, device_ok, evaluate,
}
use wslvpn.Policy.Spec.{
  Applies, PostureMeets, DeviceMeets, Decides, nothing_applies, skips, device_fails, connect_fails,
  allows,
}
use wslvpn.Policy.Matching.{matches_subjects_iff, matches_resource_iff, device_ok_iff}

Applies-or-not :
    (p : AccessPolicyDocument) (input : EvaluationInput)
    → ((matches_subjects p input ≡ true) × (matches_resource p input ≡ true) × Applies p input)
      ⊎ ((¬ Applies p input)
          × ((matches_subjects p input ≡ false) ⊎ (matches_resource p input ≡ false)))
Applies-or-not p input = elim (Bool-cases (matches_subjects p input)) [
  | inr e ↦ inr (λ a. cc (e, (matches_subjects_iff p input).1 a.0), inl e)
  | inl s ↦ elim (Bool-cases (matches_resource p input)) [
    | inr e ↦ inr (λ a. cc (e, (matches_resource_iff p input).1 a.1), inr e)
    | inl r ↦ inl (s, r, ((matches_subjects_iff p input).0 s, (matches_resource_iff p input).0 r))
  ]
]

device_or_not :
    (p : AccessPolicyDocument) (input : EvaluationInput)
    → ((device_ok p input ≡ true) × DeviceMeets p input)
      ⊎ ((device_ok p input ≡ false) × (¬ DeviceMeets p input))
device_or_not p input = elim (Bool-cases (device_ok p input)) [
  | inl e ↦ inl (e, (device_ok_iff p input).0 e)
  | inr e ↦ inr (e, λ m. cc (e, (device_ok_iff p input).1 m))
]

evaluate_skips :
    (p : AccessPolicyDocument) (ps : List AccessPolicyDocument) (input : EvaluationInput)
    → (matches_subjects p input ≡ false) ⊎ (matches_resource p input ≡ false)
    → evaluate (p ∷ ps) input ≡ evaluate ps input
unfolding evaluate
evaluate_skips p ps input h = ground arith

module _ (p : AccessPolicyDocument) (ps : List AccessPolicyDocument) (input : EvaluationInput)
    (subject : matches_subjects p input ≡ true) (resource : matches_resource p input ≡ true)
    (device : device_ok p input ≡ true) where
  evaluate_grants : p.spec.action.connect ≡ true → evaluate (p ∷ ps) input ≡ grant p
  unfolding evaluate
  evaluate_grants c = ground arith

  evaluate_refuses :
      p.spec.action.connect ≡ false
      → evaluate (p ∷ ps) input ≡ deny (some p.metadata.name) connect_is_false
  unfolding evaluate
  evaluate_refuses c = ground arith

pub evaluate-Decides :
    (policies : List AccessPolicyDocument) (input : EvaluationInput)
    → Decides input policies (evaluate policies input)
unfolding evaluate
evaluate-Decides [] input = nothing_applies
evaluate-Decides (p ∷ ps) input = elim (Applies-or-not p input) [
  | inr (na, e) ↦ rw (evaluate_skips p ps input e) (skips na (evaluate-Decides ps input))
  | inl (s, r, a) ↦ elim (device_or_not p input) [
    | inr (e, bad) ↦ rw (s, r, e) (device_fails a bad)
    | inl (e, good) ↦ elim (Bool-cases p.spec.action.connect) [
      | inl c ↦ rw (evaluate_grants p ps input s r e c) (allows a good c)
      | inr c ↦ rw (evaluate_refuses p ps input s r e c) (connect_fails a good c)
    ]
  ]
]

Decides-eq :
    {input : EvaluationInput} {policies : List AccessPolicyDocument} {d : PolicyDecision}
    → Decides input policies d
    → evaluate policies input ≡ d
unfolding evaluate
Decides-eq nothing_applies = refl
Decides-eq {input = i} (skips {p = p} {ps = ps} na rest) =
    ground (arith, matches_subjects_iff p i, matches_resource_iff p i, Decides-eq rest)
Decides-eq {input = i} (device_fails {p = p} a bad) =
    ground (arith, matches_subjects_iff p i, matches_resource_iff p i, device_ok_iff p i)
Decides-eq {input = i} (connect_fails {p = p} a good c) =
    ground (arith, matches_subjects_iff p i, matches_resource_iff p i, device_ok_iff p i)
Decides-eq {input = i} (allows {p = p} a good c) =
    ground (arith, matches_subjects_iff p i, matches_resource_iff p i, device_ok_iff p i)

-- `evaluate` computes exactly the decision of the relation `Decides`: the first policy that
-- names the user (or a group of the user) and covers the resource decides alone, with a denial if
-- the device does not meet its requirements or its action forbids connecting, and where no policy
-- applies the answer is the fail-closed denial that names no policy.
pub evaluate_iff :
    (policies : List AccessPolicyDocument) (input : EvaluationInput) (d : PolicyDecision)
    → (evaluate policies input ≡ d) ↔ Decides input policies d
evaluate_iff policies input d = (λ e. rw e at (evaluate-Decides policies input), Decides-eq)

-- Every request that is allowed is backed by a policy of the list that applies to it, that the
-- device meets and that permits connecting; the decision carries that policy's name, resources
-- and session duration.
pub evaluate-allow :
    (policies : List AccessPolicyDocument) (input : EvaluationInput)
    → (evaluate policies input).allow ≡ true
    → Any
        (λ p.
          Applies p input
          × DeviceMeets p input
          × (p.spec.action.connect ≡ true)
          × (evaluate policies input ≡ grant p))
        policies
evaluate-allow policies input h = by_cases (evaluate-Decides policies input) h
  where
    by_cases :
        {ps : List AccessPolicyDocument} {d : PolicyDecision}
        → Decides input ps d
        → d.allow ≡ true
        → Any
            (λ p.
              Applies p input
              × DeviceMeets p input
              × (p.spec.action.connect ≡ true)
              × (d ≡ grant p))
            ps
    by_cases nothing_applies e = cc
    by_cases (skips na rest) e = inr (by_cases rest e)
    by_cases (device_fails a bad) e = cc
    by_cases (connect_fails a good c) e = cc
    by_cases (allows a good c) e = inl (a, good, c, refl)

-- A device that reports no posture signal satisfies no applicable policy that requires a signal
-- by name or compliance: with such a policy first, the request is denied, whatever follows.
pub evaluate_no_posture :
    (p : AccessPolicyDocument) (policies : List AccessPolicyDocument) (input : EvaluationInput)
    → Applies p input
    → input.posture ≡ []
    → (p.spec.device.required_signals ≢ []) ⊎ (p.spec.device.compliant ≡ some true)
    → evaluate (p ∷ policies) input ≡ deny (some p.metadata.name) posture_not_met
evaluate_no_posture p policies input a e h =
    Decides-eq (device_fails a (λ m. fails p.spec.device.required_signals (rw e at m.1) h))
  where
    fails :
        (required : List Text)
        → PostureMeets required p.spec.device.compliant []
        → (required ≢ []) ⊎ (p.spec.device.compliant ≡ some true)
        → ⊥
    fails [] m (inl ne) = ne refl
    fails [] m (inr c) = (m.1 refl c).0 refl
    fails (r ∷ rs) m h = m.0.0
