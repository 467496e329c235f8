-- ===== src/Policy/Documents.antt =====
-- `parse_policy_yaml` of crates/wsl-policy/src/lib.rs.
use wslvpn.Base.{◌≡◌, refl, ap, subst, ◌≢◌, ◌↔◌, true, [], ◌∷◌, arith, is_empty}
use wslvpn.Base.Text.{Text, codes, text_eq_iff}
use wslvpn.Policy.{AccessPolicyDocument, Result, ok, err, check_document, parse_policy_yaml}

abbrev Supported : AccessPolicyDocument → Type 0
Supported doc =
    (doc.api_version ≡ codes "wsl.io/v1")
    × (doc.kind ≡ codes "AccessPolicy")
    × (doc.metadata.name ≢ [])

is_empty_iff : (t : Text) → (is_empty t ≡ true) ↔ (t ≡ [])
is_empty_iff [] = (λ _. refl, λ _. refl)
is_empty_iff (c ∷ t) = (λ h. cc, λ h. cc)

check_document_eq :
    (d doc : AccessPolicyDocument) → check_document d ≡ ok doc → (d ≡ doc) × Supported d
unfolding check_document
check_document_eq d doc h = ground (
  arith,
  text_eq_iff d.api_version (codes "wsl.io/v1"),
  text_eq_iff d.kind (codes "AccessPolicy"),
  is_empty_iff d.metadata.name,
)

check_document_of : (d : AccessPolicyDocument) → Supported d → check_document d ≡ ok d
unfolding check_document
check_document_of d h = ground (
  arith,
  text_eq_iff d.api_version (codes "wsl.io/v1"),
  text_eq_iff d.kind (codes "AccessPolicy"),
  is_empty_iff d.metadata.name,
)

-- A document is accepted exactly if the YAML reader accepts it and it has the supported
-- `apiVersion`, the kind `AccessPolicy` and a name; it is then returned unchanged.
pub parse_policy_yaml_iff :
    (from_yaml : Text → Result AccessPolicyDocument) (text : Text) (doc : AccessPolicyDocument)
    → (parse_policy_yaml from_yaml text ≡ ok doc) ↔ (
        (from_yaml text ≡ ok doc)
        × (doc.api_version ≡ codes "wsl.io/v1")
        × (doc.kind ≡ codes "AccessPolicy")
        × (doc.metadata.name ≢ []))
unfolding parse_policy_yaml
parse_policy_yaml_iff from_yaml text doc = cases (from_yaml text)
  where
    cases :
        (r : Result AccessPolicyDocument)
        → ((elim r [ ok d ↦ check_document d | err e ↦ err e ]) ≡ ok doc) ↔ (
            (r ≡ ok doc)
            × (doc.api_version ≡ codes "wsl.io/v1")
            × (doc.kind ≡ codes "AccessPolicy")
            × (doc.metadata.name ≢ []))
    cases (err e) = (λ h. cc, λ h. cc)
    cases (ok d) = (
      λ h. let (same, v, k, n) = supported h in (ap ok same, v, k, n),
      λ (e, v, k, n). subst (λ x. check_document x ≡ ok doc) (cc) (check_document_of doc (v, k, n)),
    )
      where
        supported :
            check_document d ≡ ok doc
            → (d ≡ doc)
              × (doc.api_version ≡ codes "wsl.io/v1")
              × (doc.kind ≡ codes "AccessPolicy")
              × (doc.metadata.name ≢ [])
        supported h =
            let (same, fits) = check_document_eq d doc h in
            let (v, k, n) = subst Supported same fits in (same, v, k, n)
