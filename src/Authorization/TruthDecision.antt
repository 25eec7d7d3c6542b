-- ===== src/Authorization/TruthDecision.antt =====
-- packages/authorization/src/authorization-service.ts: the decision on a change of claims or facts,
-- by the name of the action (`truthMutationDecision`, `loadTruthAuthorityTarget`).
use throughline.Prelude.{
  Bool, true, false, Option, none, some, List, ◌++◌, JsString, units, str_eq, if◌then◌else◌,
}
use throughline.Core.AccessClass.{AccessClass}
use throughline.Authorization.Terms.{
  Action, AuthorizationDecision, DecisionOptions, MembershipRole, ResourceRef, ResourceType,
  SecurityContext, allow, can_read_data_class, deny, equals_given, is_b1_action, is_given,
  is_read_action, is_truth_mutation_action, non_leaking_b1_deny, owner_or_admin_decision,
  same_resource,
}
use throughline.Authorization.Terms
use throughline.Authorization.Tables.{Database, FactSubject, Transaction, target_scope}
use throughline.Authorization.Tables.Queries.{is_row, pick, provided}
use throughline.Authorization.Spaces.{can_read_space_resource}
use throughline.Authorization.Actors.{
  ActiveMembership, Actor, contributor_authority, exact_human_authority_actor,
}
use throughline.Authorization.Mutations.{
  fact_lifecycle_mutation_decision, if_readable, objective_proposal_mutation_decision, owner_reason,
  subject_table, unarchived,
}
use throughline.Authorization.Tables.Queries.{joined_space}

pub record TruthTarget : Type 0 where
  pub space_id : JsString
  pub access_class : AccessClass
  pub subject_type : FactSubject
  pub owner_person_id : JsString

unfoldable pub target_of : SecurityContext → Database → FactSubject → JsString → Option TruthTarget
unfolding subject_table unarchived
target_of context database subject_type id =
    pick
      (λ subject.
        provided (is_row context id subject.key)
          (elim (unarchived (joined_space database subject.key subject.space_id)) [
            | none ↦ none
            | some space ↦ some (record {
              space_id = subject.space_id;
              access_class = space.access_class;
              subject_type = subject_type;
              owner_person_id = subject.owner_person_id;
            })
          ]))
      (subject_table database subject_type)

unfoldable pub truth_subject : ResourceType → Option FactSubject
truth_subject Terms.ResourceType.activity = some FactSubject.activity
truth_subject Terms.ResourceType.initiative = some FactSubject.initiative
truth_subject _ = none

unfoldable pub is_targeted : Action → Bool
is_targeted Terms.claim_create = true
is_targeted Terms.fact_accept = true
is_targeted _ = false

unfoldable pub load_truth_authority_target :
    SecurityContext → Database → Action → ResourceRef → Option TruthTarget
unfolding target_of truth_subject is_targeted
load_truth_authority_target context database action resource =
    if is_targeted action
    then elim (truth_subject resource.type) [
      | none ↦ none
      | some subject_type ↦ target_of context database subject_type resource.id
    ]
    else none

-- The end of `truthMutationDecision`, for a target that the actor may read.
unfoldable pub target_decision :
    Transaction
    → SecurityContext
    → MembershipRole
    → Action
    → Actor
    → TruthTarget
    → List JsString
    → AuthorizationDecision
unfolding owner_reason
target_decision tx context role Terms.claim_create actor target tokens =
    elim (contributor_authority tx context target.space_id role) [
      | none ↦ non_leaking_b1_deny context.policy_version
      | some more ↦
          allow context.policy_version (units "b2_live_contributor") none (some (tokens ++ more))
    ]
target_decision tx context role _ actor target tokens =
    if str_eq target.owner_person_id actor.person_id
    then allow context.policy_version (owner_reason target.subject_type) none (some tokens)
    else non_leaking_b1_deny context.policy_version

unfoldable pub targeted_decision :
    Transaction
    → SecurityContext
    → MembershipRole
    → Action
    → ResourceRef
    → DecisionOptions
    → Actor
    → AuthorizationDecision
unfolding load_truth_authority_target target_decision
targeted_decision tx context role action resource options actor =
    elim (load_truth_authority_target context (tx target_scope) action resource) [
      | none ↦ non_leaking_b1_deny context.policy_version
      | some target ↦
          if can_read_data_class context.data_class_ceiling target.access_class
          then if_readable context.policy_version
              (can_read_space_resource tx context target.space_id role options.lock_authority)
              (target_decision tx context role action actor target)
          else non_leaking_b1_deny context.policy_version
    ]

-- The decision for an actor, by the name of the action.
unfoldable pub actor_decision :
    Transaction
    → SecurityContext
    → MembershipRole
    → Action
    → ResourceRef
    → DecisionOptions
    → Actor
    → AuthorizationDecision
unfolding objective_proposal_mutation_decision fact_lifecycle_mutation_decision targeted_decision
actor_decision tx context role Terms.proposal_withdraw resource options actor =
    objective_proposal_mutation_decision tx context role Terms.proposal_withdraw resource options
      actor
actor_decision tx context role Terms.proposal_reject resource options actor =
    objective_proposal_mutation_decision tx context role Terms.proposal_reject resource options
      actor
actor_decision tx context role Terms.proposal_rework resource options actor =
    objective_proposal_mutation_decision tx context role Terms.proposal_rework resource options
      actor
actor_decision tx context role Terms.fact_supersede resource options actor =
    fact_lifecycle_mutation_decision tx context role resource options actor
      options.fact_lifecycle_replay
actor_decision tx context role Terms.fact_revoke resource options actor =
    fact_lifecycle_mutation_decision tx context role resource options actor
      options.fact_lifecycle_replay
actor_decision tx context role action resource options actor =
    targeted_decision tx context role action resource options actor

unfoldable pub truth_mutation_decision :
    Transaction
    → SecurityContext
    → MembershipRole
    → Action
    → ResourceRef
    → DecisionOptions
    → ActiveMembership
    → AuthorizationDecision
unfolding actor_decision
truth_mutation_decision tx context role action resource options member =
    elim (exact_human_authority_actor context member) [
      | none ↦ non_leaking_b1_deny context.policy_version
      | some actor ↦
          if equals_given actor.person_id context.actor_display_person_id
          then actor_decision tx context role action resource options actor
          else non_leaking_b1_deny context.policy_version
    ]
