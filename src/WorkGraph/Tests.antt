-- ===== src/WorkGraph/Tests.antt =====
-- The rules of the work graph at concrete inputs.
use mathlib.Core.List.{Perm}
use throughline.Prelude.{
  ℕ, ◌≡◌, ◌↔◌, refl, true, Option, none, some, List, [], ◌∷◌, ok, JsString, units, str_eq, includes,
  sort, insert_sorted, str_leb,
}
use throughline.Core.AccessClass.{AccessClass, rank}
use throughline.Core.Whitespace.{trim}
use throughline.WorkGraph.Relationship.{
  EntityKind, RelationshipEndpoint, SpaceBearingEndpoint, RelationshipInput, Governing, same_kind,
  is_predicate, predicate_tail, require_endpoint, most_restrictive, governing_endpoint,
  resolve_context, derive_relationship_governing_space,
}
use throughline.WorkGraph.Relationship.Laws.{
  IsGoverned, derive_relationship_governing_space-IsGoverned,
}
use throughline.WorkGraph.Associations.{
  is_distinct, GoverningParent, validate_initiative_associations, resolve_activity_governing_parent,
  normalize_organization_domain, normalize_organization_domains, normalize_all, strip_dot,
  has_scheme, has_unit, split_dots, is_label, is_canonical_domain,
}
use throughline.WorkGraph.Associations.Laws.{
  IsParent, AreNormalized, validate_initiative_associations_iff,
  resolve_activity_governing_parent_iff, normalize_organization_domains-AreNormalized,
}

abbrev no_date : JsString → Option ℕ
no_date s = none

abbrev endpoint_of : RelationshipEndpoint → Option SpaceBearingEndpoint
endpoint_of e = some (record {
  tenant_id = units "t";
  workspace_id = units "w";
  space_id = some e.id;
  access_class = AccessClass.restricted;
})

abbrev works_for : RelationshipInput
works_for = record {
  tenant_id = units "t";
  workspace_id = units "w";
  subject = record { type = EntityKind.person; id = units "p" };
  object = record { type = EntityKind.organization; id = units "o" };
  context = none;
  predicate = units "org.works_for";
  valid_from = none;
  valid_to = none;
}

abbrev governing : Governing
governing = record { space_id = units "p"; access_class = AccessClass.restricted }

works_for_run : derive_relationship_governing_space no_date endpoint_of works_for ≡ ok governing
unfolding derive_relationship_governing_space is_predicate predicate_tail same_kind str_eq
    require_endpoint resolve_context governing_endpoint most_restrictive rank
works_for_run = refl

derive_relationship_governing_space-IsGoverned_example : IsGoverned endpoint_of works_for governing
derive_relationship_governing_space-IsGoverned_example =
    derive_relationship_governing_space-IsGoverned no_date endpoint_of works_for governing
      works_for_run

abbrev two : List JsString
two = units "a" ∷ units "b" ∷ []

validate_initiative_associations_example :
    (validate_initiative_associations two (units "b") ≡ ok tt)
    ↔ ((is_distinct two ≡ true) × (includes two (units "b") ≡ true))
validate_initiative_associations_example = validate_initiative_associations_iff two (units "b")

resolve_activity_governing_parent_example :
    (resolve_activity_governing_parent two [] (some (units "a")) none
      ≡ ok (GoverningParent.governing_initiative (units "a")))
    ↔ IsParent two [] (some (units "a")) none (GoverningParent.governing_initiative (units "a"))
resolve_activity_governing_parent_example =
    resolve_activity_governing_parent_iff two [] (some (units "a")) none
      (GoverningParent.governing_initiative (units "a"))

abbrev same_text : JsString → JsString
same_text s = s

domains_run :
    normalize_organization_domains same_text same_text
      (units " b.example. " ∷ units "a.example" ∷ [])
    ≡ ok (units "a.example" ∷ units "b.example" ∷ [])
unfolding normalize_organization_domains normalize_all normalize_organization_domain trim strip_dot
    has_scheme has_unit is_canonical_domain split_dots is_label is_distinct includes str_eq sort
    insert_sorted str_leb
domains_run = refl

normalize_organization_domains-AreNormalized_example :
    (domains : List JsString) × AreNormalized same_text same_text
      (units " b.example. " ∷ units "a.example" ∷ [])
      domains
    × (is_distinct domains ≡ true)
    × Perm (units "a.example" ∷ units "b.example" ∷ []) domains
normalize_organization_domains-AreNormalized_example =
    normalize_organization_domains-AreNormalized same_text same_text
      (units " b.example. " ∷ units "a.example" ∷ []) (units "a.example" ∷ units "b.example" ∷ [])
      domains_run
