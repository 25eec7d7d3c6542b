-- ===== src/Authorization/Service/Reads.antt =====
-- packages/authorization/src/authorization-service.ts: an allowed read stays within the ceiling of the
-- context.
use throughline.Prelude.{
  ◌≤◌, ◌≡◌, refl, true, Option, none, some, List, JsString, arith, max, leb→le,
}
use throughline.Core.AccessClass.{AccessClass, public, workspace, restricted, confidential, rank}
use throughline.Authorization.Terms.{
  Action, AuthorizationDecision, DecisionOptions, MembershipRole, ResourceRef, SecurityContext,
  can_read_data_class, is_create_action, is_read_action, is_truth_mutation_action,
  non_leaking_b1_deny,
}
use throughline.Authorization.Tables.{Fact, Query, Space, Transaction}
use throughline.Authorization.Tables.Queries.{greatest_class, is_row, joined_space}
use throughline.Authorization.Spaces.{can_read_space_resource}
use throughline.Authorization.Resources.{ResourceScope, b1_scope, load_b1_resource_scope}
use throughline.Authorization.Actors.{ActiveMembership}
use throughline.Authorization.Mutations.{if_readable}
use throughline.Authorization.ResourceDecision.{b1_decision, resource_decision, scoped_decision}

-- The CASE over GREATEST is the class of the greater number.
pub rank-greatest_class : (a b : AccessClass) → rank (greatest_class a b) ≡ max (rank a) (rank b)
unfolding greatest_class
rank-greatest_class public public = refl
rank-greatest_class public workspace = refl
rank-greatest_class public restricted = refl
rank-greatest_class public confidential = refl
rank-greatest_class workspace public = refl
rank-greatest_class workspace workspace = refl
rank-greatest_class workspace restricted = refl
rank-greatest_class workspace confidential = refl
rank-greatest_class restricted public = refl
rank-greatest_class restricted workspace = refl
rank-greatest_class restricted restricted = refl
rank-greatest_class restricted confidential = refl
rank-greatest_class confidential public = refl
rank-greatest_class confidential workspace = refl
rank-greatest_class confidential restricted = refl
rank-greatest_class confidential confidential = refl

pub can_read_data_class_le :
    (ceiling resource : AccessClass)
    → can_read_data_class ceiling resource ≡ true
    → rank resource ≤ rank ceiling
unfolding can_read_data_class
can_read_data_class_le ceiling resource h = leb→le (rank resource) (rank ceiling) h

module _ (tx : Transaction) (context : SecurityContext) (role : MembershipRole)
    (options : DecisionOptions) where
  -- What an allowed decision on a scope rests on.
  pub record WithinScope (scope : Option ResourceScope) : Type 0 where
    pub found : ResourceScope
    pub is_found : scope ≡ some found
    pub within : rank found.access_class ≤ rank context.data_class_ceiling
    pub readable :
        (can_read_space_resource tx context found.space_id role options.lock_authority).allowed
        ≡ true

  scoped-WithinScope :
      (scope : Option ResourceScope)
      (decide : ResourceScope → List JsString → AuthorizationDecision)
      → (scoped_decision tx context role options scope decide).allowed ≡ true
      → WithinScope scope
  unfolding scoped_decision if_readable non_leaking_b1_deny
  scoped-WithinScope none decide h = absurd (ground (arith, h))
  scoped-WithinScope (some found) decide h = record {
    found = found;
    is_found = refl;
    within =
        can_read_data_class_le context.data_class_ceiling found.access_class (ground (arith, h));
    readable = ground (arith, h);
  }

  reading :
      (action : Action) (resource : ResourceRef) (member : ActiveMembership)
      → is_read_action action ≡ true
      → b1_decision tx context role action resource options member
        ≡ scoped_decision tx context role options
            (load_b1_resource_scope context (tx Query.target_scope) action resource options)
            (resource_decision tx context role action options)
  unfolding b1_decision b1_scope is_read_action is_truth_mutation_action is_create_action
  reading Action.person_read resource member read = absurd (ground (arith, read))
  reading _ resource member read = ground (arith, read)

  -- A decision that lets a member read an organization, initiative, activity, relationship, content
  -- item, source, claim or fact found it with a class within the ceiling of the context, in a space
  -- that the member may read.
  pub b1_decision-WithinScope :
      (action : Action) (resource : ResourceRef) (member : ActiveMembership)
      → is_read_action action ≡ true
      → (b1_decision tx context role action resource options member).allowed ≡ true
      → WithinScope (load_b1_resource_scope context (tx Query.target_scope) action resource options)
  b1_decision-WithinScope action resource member read h =
      scoped-WithinScope
        (load_b1_resource_scope context (tx Query.target_scope) action resource options)
        (resource_decision tx context role action options)
        (rw (reading action resource member read) at h)

  -- A fact, and the space that it is in.
  pub record FactWithin (resource : ResourceRef) : Type 0 where
    pub fact : Fact
    pub space : Space
    pub same_row : is_row context resource.id fact.key ≡ true
    pub has_space : joined_space (tx Query.target_scope) fact.key fact.space_id ≡ some space
    pub fact_within : rank fact.access_class ≤ rank context.data_class_ceiling
    pub space_within : rank space.access_class ≤ rank context.data_class_ceiling
    pub readable :
        (can_read_space_resource tx context fact.space_id role options.lock_authority).allowed
        ≡ true
