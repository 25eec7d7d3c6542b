-- ===== src/Authorization/Service/FactChanges.antt =====
-- packages/authorization/src/authorization-service.ts: what an allowed change of a fact rests on.
use mathlib.Core.List.{Memᴰ}
use throughline.Prelude.{
  ◌≤◌, ◌≡◌, inl, inr, true, some, [], ◌∷◌, str_eq, str_eq_iff, arith, Option-cases, ap, ◌∙◌,
}
use throughline.Core.AccessClass.{rank}
use throughline.Authorization.Terms.{
  DecisionOptions, MembershipRole, ResourceRef, ResourceType, SecurityContext, can_read_data_class,
  non_leaking_b1_deny, same_resource,
}
use throughline.Authorization.Tables.{Fact, Query, Space, Transaction, Work}
use throughline.Authorization.Spaces.{can_read_space_resource}
use throughline.Authorization.Actors.{Actor}
use throughline.Authorization.Mutations.{
  FactRow, fact_lifecycle_mutation_decision, if_readable, is_only, load_lifecycle_fact,
  load_subject,
}
use throughline.Authorization.Service.Reads.{can_read_data_class_le, rank-greatest_class}
use throughline.Authorization.Service.Standing.{IsKey, IsSpaceOf, resource_type}
use throughline.Authorization.Service.FactRows.{
  Changeable, IsFound, IsFound-of, IsPair, IsSubject, is_only_lem, load_subject-IsSubject,
}

module _ (tx : Transaction) (context : SecurityContext) (role : MembershipRole)
    (options : DecisionOptions) where
  -- The fact that is changed, its space and its subject, as the queries found them.
  pub record FactAuthority (resource : ResourceRef) (actor : Actor) : Type 0 where
    pub fact : Fact
    pub space : Space
    pub subject : Work
    pub is_fact : resource.type ≡ ResourceType.fact
    pub stored : Memᴰ fact (tx Query.target_scope).accepted_facts
    pub keyed : IsKey context resource.id fact.key
    pub generation : Changeable options.fact_lifecycle_replay fact
    pub pair : IsPair fact.subject_type fact.predicate
    pub placed : IsSpaceOf (tx Query.target_scope) fact.key fact.space_id space
    pub requested : context.requested_space_ids ≡ fact.space_id ∷ []
    pub fact_within : rank fact.access_class ≤ rank context.data_class_ceiling
    pub space_within : rank space.access_class ≤ rank context.data_class_ceiling
    pub has_subject : IsSubject (tx Query.target_subject) fact.subject_type subject
    pub subject_keyed : IsKey context fact.subject_id subject.key
    pub subject_placed : subject.space_id ≡ fact.space_id
    pub owned : subject.owner_person_id ≡ actor.person_id
    pub readable :
        (can_read_space_resource tx context fact.space_id role options.lock_authority).allowed
        ≡ true

  FactAuthority-of :
      (resource : ResourceRef) (actor : Actor) (row : FactRow) (subject : Work)
      → IsFound context (tx Query.target_scope) resource.id options.fact_lifecycle_replay row
      → load_subject context
          (tx Query.target_subject)
          row.fact.subject_type
          row.fact.subject_id
          row.fact.space_id
        ≡ some subject
      → same_resource resource.type ResourceType.fact ≡ true
      → is_only context.requested_space_ids row.fact.space_id ≡ true
      → can_read_data_class context.data_class_ceiling row.access_class ≡ true
      → str_eq subject.owner_person_id actor.person_id ≡ true
      → (can_read_space_resource tx context row.fact.space_id role options.lock_authority).allowed
        ≡ true
      → FactAuthority resource actor
  FactAuthority-of resource actor row subject found loaded is_fact requested within owned readable =
      let (has_subject, subject_keyed, subject_placed) =
        load_subject-IsSubject context (tx Query.target_subject) row.fact.subject_type
          row.fact.subject_id row.fact.space_id subject loaded in
      let top = can_read_data_class_le context.data_class_ceiling row.access_class within in
      let ranks =
        ap rank found.classed
        ∙ rank-greatest_class found.space.access_class row.fact.access_class in
      record {
        fact = row.fact;
        space = found.space;
        subject = subject;
        is_fact = resource_type resource.type is_fact;
        stored = found.stored;
        keyed = found.keyed;
        generation = found.generation;
        pair = found.pair;
        placed = found.placed;
        requested = is_only_lem context.requested_space_ids row.fact.space_id requested;
        fact_within = omega (arith, top, ranks);
        space_within = omega (arith, top, ranks);
        has_subject = has_subject;
        subject_keyed = subject_keyed;
        subject_placed = subject_placed;
        owned = (str_eq_iff subject.owner_person_id actor.person_id).0 owned;
        readable = readable;
      }

  pub lifecycle-FactAuthority :
      (resource : ResourceRef) (actor : Actor)
      → (fact_lifecycle_mutation_decision tx context role resource options actor
          options.fact_lifecycle_replay).allowed
        ≡ true
      → FactAuthority resource actor
  unfolding fact_lifecycle_mutation_decision if_readable non_leaking_b1_deny
  lifecycle-FactAuthority resource actor h =
      elim (Option-cases (
        load_lifecycle_fact context (tx Query.target_scope) resource.id
          options.fact_lifecycle_replay)) [
            | inl e ↦ absurd (ground (arith, e, h))
            | inr (row, e) ↦
                elim (Option-cases (
                  load_subject context (tx Query.target_subject) row.fact.subject_type
                    row.fact.subject_id row.fact.space_id)) [
                      | inl e' ↦ absurd (ground (arith, e, e', h))
                      | inr (subject, e') ↦
                          FactAuthority-of resource actor row subject
                            (IsFound-of context (tx Query.target_scope) resource.id
                              options.fact_lifecycle_replay row e)
                            e' (ground (arith, e, e', h)) (ground (arith, e, e', h))
                            (ground (arith, e, e', h)) (ground (arith, e, e', h))
                            (ground (arith, e, e', h))
                    ]
          ]
