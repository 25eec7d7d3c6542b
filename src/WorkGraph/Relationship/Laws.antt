-- ===== src/WorkGraph/Relationship/Laws.antt =====
-- What a derived relationship is governed by (work-graph.ts).
use mathlib.Core.Path.{subst}
use throughline.Prelude.{
  ℕ, ◌≡◌, sym, ap, ◌⊎◌, inl, inr, false, ◌&&◌, not, Option, none, some, List, [], ◌∷◌, ok,
  bind_value, check_value, throw_if, throw_if_ok, ok_injective, ltb, if◌then◌else◌, JsString,
  str_eq, str_eq_iff, arith, All, Option-cases,
}
use throughline.Core.AccessClass.{AccessClass, rank}
use throughline.Core.AccessClass.Laws.{IsBelow}
use throughline.WorkGraph.Relationship.{
  RelationshipEndpoint, SpaceBearingEndpoint, InvariantError, work_graph_invariant,
  RelationshipInput, Governing, same_kind, is_predicate, truthy, require_endpoint, most_restrictive,
  governing_endpoint, context_classes, resolve_context, derive_relationship_governing_space,
  is_empty_range,
}

most_restrictive-IsBelow :
    (c : AccessClass) (cs : List AccessClass)
    → IsBelow (most_restrictive c cs) c × All (IsBelow (most_restrictive c cs)) cs
unfolding most_restrictive rank
most_restrictive-IsBelow c [] = (omega arith, tt)
most_restrictive-IsBelow c (d ∷ cs) =
    let (above, all_below) = most_restrictive-IsBelow (if ltb (rank c) (rank d) then d else c) cs in
    (ground arith, (ground arith, all_below))

-- An endpoint that was resolved in the tenant and workspace of the relationship.
abbrev pub IsEndpoint :
    (RelationshipEndpoint → Option SpaceBearingEndpoint)
    → RelationshipInput
    → RelationshipEndpoint
    → SpaceBearingEndpoint
    → Type 0
IsEndpoint resolve input endpoint found =
    (resolve endpoint ≡ some found)
    × (found.tenant_id ≡ input.tenant_id)
    × (found.workspace_id ≡ input.workspace_id)

require_endpoint-IsEndpoint :
    (resolve : RelationshipEndpoint → Option SpaceBearingEndpoint) (input : RelationshipInput)
    (endpoint : RelationshipEndpoint) (found : SpaceBearingEndpoint)
    → require_endpoint (resolve endpoint) input.tenant_id input.workspace_id ≡ ok found
    → IsEndpoint resolve input endpoint found
unfolding require_endpoint
require_endpoint-IsEndpoint resolve input endpoint found h =
    elim (Option-cases (resolve endpoint)) [
      | inl nothing ↦ cc
      | inr (e, there) ↦ ground (
        arith,
        there,
        str_eq_iff e.tenant_id input.tenant_id,
        str_eq_iff e.workspace_id input.workspace_id,
      )
    ]

-- The context of a relationship, resolved if there is one.
abbrev pub IsContext :
    (RelationshipEndpoint → Option SpaceBearingEndpoint)
    → RelationshipInput
    → Option RelationshipEndpoint
    → Option SpaceBearingEndpoint
    → Type 0
IsContext resolve input none none = Unit
IsContext resolve input (some endpoint) (some found) = IsEndpoint resolve input endpoint found
IsContext resolve input _ _ = ⊥

-- The Space of the context, if there is one; else that of the subject, else that of the object.
abbrev pub Governs :
    Option SpaceBearingEndpoint → (subject object : SpaceBearingEndpoint) → JsString → Type 0
Governs (some context) subject object id = truthy context.space_id ≡ some id
Governs none subject object id =
    (truthy subject.space_id ≡ some id)
    ⊎ ((truthy subject.space_id ≡ none) × (truthy object.space_id ≡ some id))

pub record IsGoverned (resolve : RelationshipEndpoint → Option SpaceBearingEndpoint)
    (input : RelationshipInput) (g : Governing) : Type 0 where
  pub subject : SpaceBearingEndpoint
  pub object : SpaceBearingEndpoint
  pub context : Option SpaceBearingEndpoint
  pub irreflexive :
      (same_kind input.subject.type input.object.type && str_eq input.subject.id input.object.id)
      ≡ false
  pub subject_found : IsEndpoint resolve input input.subject subject
  pub object_found : IsEndpoint resolve input input.object object
  pub context_found : IsContext resolve input input.context context
  pub governs : Governs context subject object g.space_id
  pub guarded :
      All
        (IsBelow g.access_class)
        (subject.access_class ∷ object.access_class ∷ context_classes context)

governing_endpoint-Governs :
    (context : Option SpaceBearingEndpoint) (subject object : SpaceBearingEndpoint)
    (g : JsString × AccessClass)
    → governing_endpoint context subject object ≡ ok g
    → Governs context subject object g.0
unfolding governing_endpoint
governing_endpoint-Governs (some context) subject object g h =
    elim (Option-cases (truthy context.space_id)) [ inl nothing ↦ cc | inr (id, there) ↦ cc ]
governing_endpoint-Governs none subject object g h = elim (Option-cases (truthy subject.space_id)) [
  | inr (id, there) ↦ inl cc
  | inl nothing ↦ elim (Option-cases (truthy object.space_id)) [
    | inl neither ↦ cc
    | inr (id, there) ↦ inr (nothing, cc)
  ]
]

resolve_context-IsContext :
    (resolve : RelationshipEndpoint → Option SpaceBearingEndpoint)
    (date_parse : JsString → Option ℕ) (input : RelationshipInput)
    (context : Option SpaceBearingEndpoint)
    → resolve_context date_parse resolve input ≡ ok context
    → IsContext resolve input input.context context
unfolding resolve_context
resolve_context-IsContext resolve date_parse input context h = elim (Option-cases input.context) [
  | inl nothing ↦
      let same = ok_injective {E = InvariantError} (rw (nothing, resolve_context) at h) in
      rw (nothing, ← same) tt
  | inr (endpoint, there) ↦
      let (found, resolved, h1) =
        bind_value (require_endpoint (resolve endpoint) input.tenant_id input.workspace_id) _
          (rw (there, resolve_context) at h) in
      rw (there, ← ok_injective {E = InvariantError} h1)
        (require_endpoint-IsEndpoint resolve input endpoint found resolved)
]

IsGoverned-of :
    (resolve : RelationshipEndpoint → Option SpaceBearingEndpoint) (input : RelationshipInput)
    (g : Governing) (subject object : SpaceBearingEndpoint) (context : Option SpaceBearingEndpoint)
    (governing : JsString × AccessClass)
    → (same_kind input.subject.type input.object.type && str_eq input.subject.id input.object.id)
      ≡ false
    → IsEndpoint resolve input input.subject subject
    → IsEndpoint resolve input input.object object
    → IsContext resolve input input.context context
    → governing_endpoint context subject object ≡ ok governing
    → g.space_id ≡ governing.0
    → g.access_class
      ≡ most_restrictive governing.1
          (subject.access_class ∷ object.access_class ∷ context_classes context)
    → IsGoverned resolve input g
IsGoverned-of resolve input g subject object context governing different s o c chosen id class =
    let (_, below) =
      most_restrictive-IsBelow governing.1
        (subject.access_class ∷ object.access_class ∷ context_classes context) in
    record {
      subject = subject;
      object = object;
      context = context;
      irreflexive = different;
      subject_found = s;
      object_found = o;
      context_found = c;
      governs = rw id (governing_endpoint-Governs context subject object governing chosen);
      guarded =
          subst
            (λ x.
              All (IsBelow x)
                (subject.access_class ∷ object.access_class ∷ context_classes context))
            (sym class) below;
    }

-- A relationship that is accepted has two different endpoints and a context, if one is given, that
-- are resolved in its tenant and workspace; its Space is that of the context, else of the subject,
-- else of the object; and its access class is not below that of any of them.
pub derive_relationship_governing_space-IsGoverned :
    (date_parse : JsString → Option ℕ)
    (resolve : RelationshipEndpoint → Option SpaceBearingEndpoint) (input : RelationshipInput)
    (g : Governing)
    → derive_relationship_governing_space date_parse resolve input ≡ ok g
    → IsGoverned resolve input g
unfolding derive_relationship_governing_space
derive_relationship_governing_space-IsGoverned date_parse resolve input g h =
    let (_, h1) =
      check_value (throw_if (not (is_predicate input.predicate)) work_graph_invariant) _ h in
    let (different, h2) =
      check_value
        (throw_if
          (same_kind input.subject.type input.object.type
            && str_eq input.subject.id input.object.id)
          work_graph_invariant)
        _ h1 in
    let (_, h3) =
      check_value
        (throw_if (is_empty_range date_parse (truthy input.valid_from) (truthy input.valid_to))
          work_graph_invariant)
        _ h2 in
    let (subject, s, h4) =
      bind_value (require_endpoint (resolve input.subject) input.tenant_id input.workspace_id) _
        h3 in
    let (object, o, h5) =
      bind_value (require_endpoint (resolve input.object) input.tenant_id input.workspace_id) _
        h4 in
    let (context, c, h6) = bind_value (resolve_context date_parse resolve input) _ h5 in
    let (governing, chosen, h7) = bind_value (governing_endpoint context subject object) _ h6 in
    let made = ok_injective h7 in
    IsGoverned-of resolve input g subject object context governing
      (throw_if_ok _ work_graph_invariant different)
      (require_endpoint-IsEndpoint resolve input input.subject subject s)
      (require_endpoint-IsEndpoint resolve input input.object object o)
      (resolve_context-IsContext resolve date_parse input context c) chosen
      (sym (ap (λ (x : Governing). x.space_id) made))
      (sym (ap (λ (x : Governing). x.access_class) made))
