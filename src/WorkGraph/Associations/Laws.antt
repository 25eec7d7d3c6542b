-- ===== src/WorkGraph/Associations/Laws.antt =====
-- The rules on associations and domains (work-graph.ts).
use mathlib.Core.List.{Perm}
use mathlib.Core.Path.{subst}
use throughline.Prelude.{
  ◌≡◌, ◌≢◌, ◌↔◌, inl, inr, refl, true, false, not, Option, none, some, List, [], ◌∷◌, ok, throw_if,
  bind_value, check_value, ok_injective, length, JsString, str_eq_iff, includes, sort-perm, arith,
  Bool-cases,
}
use throughline.WorkGraph.Relationship.{work_graph_invariant}
use throughline.WorkGraph.Associations.{
  is_distinct, occurrences, validate_initiative_associations, GoverningParent, governing_initiative,
  governing_organization, resolve_activity_governing_parent, is_canonical_domain,
  normalize_organization_domain, normalize_all, normalize_organization_domains,
}

occurrences_absent :
    (ss : List JsString) (id : JsString) → includes ss id ≡ false → occurrences ss id ≡ 0
unfolding occurrences includes
occurrences_absent [] id h = refl
occurrences_absent (s ∷ ss) id h = ground (arith, occurrences_absent ss id)

occurrences_once :
    (ss : List JsString) (id : JsString)
    → is_distinct ss ≡ true
    → includes ss id ≡ true
    → occurrences ss id ≡ 1
unfolding occurrences includes is_distinct
occurrences_once [] id d h = cc
occurrences_once (s ∷ ss) id d h =
    ground (arith, str_eq_iff s id, occurrences_absent ss id, occurrences_once ss id)

not_empty : (ss : List JsString) (id : JsString) → includes ss id ≡ true → length ss ≢ 0
unfolding includes
not_empty [] id h = cc
not_empty (s ∷ ss) id h = omega arith

-- The associations of an initiative are accepted exactly when they are distinct and the primary
-- organization is one of them.
pub validate_initiative_associations_iff :
    (organization_ids : List JsString) (primary_organization_id : JsString)
    → (validate_initiative_associations organization_ids primary_organization_id ≡ ok tt) ↔ (
        (is_distinct organization_ids ≡ true)
        × (includes organization_ids primary_organization_id ≡ true))
unfolding validate_initiative_associations
validate_initiative_associations_iff ids id = (
  λ h. elim (Bool-cases (includes ids id)) [
    | inl present ↦ (ground (arith, h), present)
    | inr missing ↦ absurd (ground (arith, h, occurrences_absent ids id missing))
  ],
  λ (d, m). accepted d m,
)
  where
    accepted :
        is_distinct ids ≡ true
        → includes ids id ≡ true
        → validate_initiative_associations ids id ≡ ok tt
    accepted d m = ground (arith, occurrences_once ids id d m, not_empty ids id m)

-- The governing parent that is asked for: the one that is given and associated.
abbrev pub IsParent :
    (initiatives organizations : List JsString)
    → (initiative organization : Option JsString) → GoverningParent
    → Type 0
IsParent initiatives organizations initiative organization (governing_initiative id) =
    (initiative ≡ some id) × (organization ≡ none) × (includes initiatives id ≡ true)
IsParent initiatives organizations initiative organization (governing_organization id) =
    (initiative ≡ none) × (organization ≡ some id) × (includes organizations id ≡ true)

-- The governing parent of an activity is the initiative or the organization exactly when it alone is
-- given and is associated with the activity.
pub resolve_activity_governing_parent_iff :
    (initiatives organizations : List JsString) (initiative organization : Option JsString)
    (parent : GoverningParent)
    → (resolve_activity_governing_parent initiatives organizations initiative organization
        ≡ ok parent)
      ↔ IsParent initiatives organizations initiative organization parent
unfolding resolve_activity_governing_parent
resolve_activity_governing_parent_iff is os (some i) (some o) (governing_initiative id) =
    (λ h. cc, λ h. cc)
resolve_activity_governing_parent_iff is os (some i) (some o) (governing_organization id) =
    (λ h. cc, λ h. cc)
resolve_activity_governing_parent_iff is os none none (governing_initiative id) = (λ h. cc, λ h. cc)
resolve_activity_governing_parent_iff is os none none (governing_organization id) =
    (λ h. cc, λ h. cc)
resolve_activity_governing_parent_iff is os (some i) none (governing_initiative id) =
    (λ h. ground arith, λ h. ground arith)
resolve_activity_governing_parent_iff is os (some i) none (governing_organization id) =
    (λ h. ground arith, λ h. ground arith)
resolve_activity_governing_parent_iff is os none (some o) (governing_initiative id) =
    (λ h. ground arith, λ h. ground arith)
resolve_activity_governing_parent_iff is os none (some o) (governing_organization id) =
    (λ h. ground arith, λ h. ground arith)

-- Element by element, what an input is normalized to.
abbrev pub AreNormalized :
    (lower_case domain_to_ascii : JsString → JsString) → List JsString → List JsString → Type 0
AreNormalized lower_case domain_to_ascii [] [] = Unit
AreNormalized lower_case domain_to_ascii (input ∷ inputs) (domain ∷ domains) =
    (normalize_organization_domain lower_case domain_to_ascii input ≡ ok domain)
    × (is_canonical_domain domain ≡ true)
    × AreNormalized lower_case domain_to_ascii inputs domains
AreNormalized lower_case domain_to_ascii _ _ = ⊥

module _ (lower_case domain_to_ascii : JsString → JsString) where
  normalized_canonical :
      (input domain : JsString)
      → normalize_organization_domain lower_case domain_to_ascii input ≡ ok domain
      → is_canonical_domain domain ≡ true
  unfolding normalize_organization_domain
  normalized_canonical input domain h = ground (arith, h)

  normalize_all-AreNormalized :
      (inputs domains : List JsString)
      → normalize_all lower_case domain_to_ascii inputs ≡ ok domains
      → AreNormalized lower_case domain_to_ascii inputs domains
  unfolding normalize_all
  normalize_all-AreNormalized [] [] h = tt
  normalize_all-AreNormalized [] (d ∷ ds) h = cc
  normalize_all-AreNormalized (input ∷ inputs) [] h =
      let (domain, _, h1) =
        bind_value (normalize_organization_domain lower_case domain_to_ascii input) _ h in
      let (domains, _, h2) = bind_value (normalize_all lower_case domain_to_ascii inputs) _ h1 in cc
  normalize_all-AreNormalized (input ∷ inputs) (d ∷ ds) h =
      let (domain, one, h1) =
        bind_value (normalize_organization_domain lower_case domain_to_ascii input) _ h in
      let (domains, rest, h2) = bind_value (normalize_all lower_case domain_to_ascii inputs) _ h1 in
      let first : domain ≡ d = cc in
      let others : domains ≡ ds = cc in
      let one' : normalize_organization_domain lower_case domain_to_ascii input ≡ ok d =
        rw (← first) one in
      (
        one',
        normalized_canonical input d one',
        normalize_all-AreNormalized inputs ds (rw (← others) rest),
      )

  -- The domains of an organization are the normalized forms of the inputs, each canonical and all
  -- distinct, in another order.
  pub normalize_organization_domains-AreNormalized :
      (inputs result : List JsString)
      → normalize_organization_domains lower_case domain_to_ascii inputs ≡ ok result
      → (domains : List JsString) × AreNormalized lower_case domain_to_ascii inputs domains
        × (is_distinct domains ≡ true)
        × Perm result domains
  unfolding normalize_organization_domains
  normalize_organization_domains-AreNormalized inputs result h =
      let (domains, all_, h1) = bind_value (normalize_all lower_case domain_to_ascii inputs) _ h in
      let (distinct, h2) =
        check_value (throw_if (not (is_distinct domains)) work_graph_invariant) _ h1 in
      (
        domains,
        normalize_all-AreNormalized inputs domains all_,
        ground (arith, distinct),
        subst (λ r. Perm r domains) (ok_injective h2) (sort-perm domains),
      )
