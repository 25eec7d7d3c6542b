-- ===== src/Authorization/Mutations.antt =====
-- packages/authorization/src/authorization-service.ts: who may change claims and facts
-- (`truthMutationDecision` and the decisions that it calls).
use throughline.Prelude.{
  ℕ, Bool, true, false, ◌&&◌, ◌||◌, not, Option, none, some, List, [], ◌∷◌, ◌++◌, JsString, units,
  str_eq, ◌==◌, if◌then◌else◌,
}
use throughline.Core.AccessClass.{AccessClass}
use throughline.Authorization.Terms.{
  Action, AuthorizationDecision, DecisionOptions, MembershipRole, ResourceRef, ResourceType,
  SecurityContext, allow, can_read_data_class, equals_given, non_leaking_b1_deny, same_resource,
}
use throughline.Authorization.Terms
use throughline.Authorization.Tables.{
  Claim, Database, Fact, FactStatus, Predicate, Space, FactSubject, Transaction, Work, current,
  proposal, revoked, superseded, target_scope, target_subject, activity_outcome,
  initiative_primary_objective,
}
use throughline.Authorization.Tables.Queries.{
  find_where, greatest_class, is_row, joined_space, pick, provided,
}
use throughline.Authorization.Spaces.{SpaceRead, can_read_space_resource}
use throughline.Authorization.Actors.{Actor}

-- `fact.status = 'current' AND fact.version = 1`, or on replay the terminal generation.
unfoldable pub is_generation : Bool → FactStatus → ℕ → Bool
is_generation true superseded version = version == 2
is_generation true revoked version = version == 2
is_generation true current version = false
is_generation false current version = version == 1
is_generation false _ version = false

unfoldable pub in_generation : Bool → Fact → Bool
unfolding is_generation
in_generation replay fact = is_generation replay fact.status fact.version

unfoldable pub is_canonical_pair : FactSubject → Predicate → Bool
is_canonical_pair FactSubject.activity activity_outcome = true
is_canonical_pair FactSubject.initiative initiative_primary_objective = true
is_canonical_pair _ _ = false

pub record FactRow : Type 0 where
  pub fact : Fact
  pub access_class : AccessClass

-- The space of a row, where it is not archived.
unfoldable pub unarchived : Option Space → Option Space
unarchived none = none
unarchived (some space) = provided (not space.is_archived) (some space)

unfoldable pub load_lifecycle_fact : SecurityContext → Database → JsString → Bool → Option FactRow
unfolding in_generation is_canonical_pair unarchived
load_lifecycle_fact context database id replay =
    pick
      (λ fact.
        provided
          (is_row context id fact.key
            && (in_generation replay fact && is_canonical_pair fact.subject_type fact.predicate))
          (elim (unarchived (joined_space database fact.key fact.space_id)) [
            | none ↦ none
            | some space ↦ some (record {
              fact = fact;
              access_class = greatest_class space.access_class fact.access_class;
            })
          ]))
      database.accepted_facts

unfoldable pub subject_table : Database → FactSubject → List Work
subject_table database FactSubject.activity = database.activities
subject_table database FactSubject.initiative = database.initiatives

unfoldable pub load_subject :
    SecurityContext → Database → FactSubject → JsString → JsString → Option Work
unfolding subject_table
load_subject context database subject_type id space_id =
    find_where (λ subject. is_row context id subject.key && str_eq subject.space_id space_id)
      (subject_table database subject_type)

-- `ids.length === 1 && ids[0] === id`
unfoldable pub is_only : List JsString → JsString → Bool
is_only [] id = false
is_only (first ∷ []) id = str_eq first id
is_only (first ∷ second ∷ rest) id = false

unfoldable pub owner_reason : FactSubject → JsString
owner_reason FactSubject.activity = units "b2_activity_owner"
owner_reason FactSubject.initiative = units "b2_initiative_owner"

-- A decision that needs the space to be readable.
unfoldable pub if_readable :
    JsString → SpaceRead → (List JsString → AuthorizationDecision) → AuthorizationDecision
if_readable policy_version readable decide =
    if readable.allowed
    then decide readable.authority_tokens
    else non_leaking_b1_deny policy_version

unfoldable pub fact_lifecycle_mutation_decision :
    Transaction
    → SecurityContext
    → MembershipRole
    → ResourceRef
    → DecisionOptions
    → Actor
    → Bool
    → AuthorizationDecision
unfolding load_lifecycle_fact load_subject is_only owner_reason if_readable
fact_lifecycle_mutation_decision tx context role resource options actor replay =
    let denied = non_leaking_b1_deny context.policy_version in
    if same_resource resource.type Terms.ResourceType.fact
    then elim (load_lifecycle_fact context (tx target_scope) resource.id replay) [
      | none ↦ denied
      | some row ↦
          if is_only context.requested_space_ids row.fact.space_id
            && can_read_data_class context.data_class_ceiling row.access_class
          then elim (load_subject context (tx target_subject) row.fact.subject_type
              row.fact.subject_id row.fact.space_id) [
                | none ↦ denied
                | some subject ↦
                    if str_eq subject.owner_person_id actor.person_id
                    then if_readable context.policy_version
                        (can_read_space_resource tx context row.fact.space_id role
                          options.lock_authority)
                        (λ tokens.
                          allow context.policy_version (owner_reason row.fact.subject_type) none
                            (some tokens))
                    else denied
              ]
          else denied
    ]
    else denied

pub record ProposalRow : Type 0 where
  pub claim : Claim
  pub owner_person_id : JsString

unfoldable pub is_objective_claim : FactSubject → Predicate → Bool
is_objective_claim FactSubject.initiative initiative_primary_objective = true
is_objective_claim _ _ = false

unfoldable pub load_proposal : SecurityContext → Database → JsString → Option ProposalRow
unfolding is_objective_claim unarchived
load_proposal context database id =
    pick
      (λ claim.
        provided
          (is_row context id claim.key && is_objective_claim claim.subject_type claim.predicate)
          (elim (find_where
            (λ initiative.
              str_eq initiative.key.tenant_id claim.key.tenant_id
              && (str_eq initiative.key.workspace_id claim.key.workspace_id
                  && (str_eq initiative.space_id claim.space_id
                      && str_eq initiative.key.id claim.subject_id)))
            database.initiatives) [
              | none ↦ none
              | some initiative ↦
                  elim (unarchived (joined_space database claim.key claim.space_id)) [
                    | none ↦ none
                    | some space ↦
                        some
                          (record { claim = claim; owner_person_id = initiative.owner_person_id })
                  ]
            ]))
      database.claims

-- Who may withdraw, reject or rework a proposal.
unfoldable pub may_manage : Action → Bool → Bool → Bool
may_manage Terms.proposal_rework is_proposer is_owner = is_proposer
may_manage Terms.proposal_reject is_proposer is_owner = is_owner
may_manage _ is_proposer is_owner = is_proposer || is_owner

unfoldable pub is_proposer_of : Actor → Claim → Bool
is_proposer_of actor claim =
    str_eq claim.created_by_user_id actor.user_id
    && str_eq claim.created_by_membership_id actor.membership_id

unfoldable pub objective_proposal_mutation_decision :
    Transaction
    → SecurityContext
    → MembershipRole
    → Action
    → ResourceRef
    → DecisionOptions
    → Actor
    → AuthorizationDecision
unfolding load_proposal may_manage is_proposer_of if_readable
objective_proposal_mutation_decision tx context role action resource options actor =
    let denied = non_leaking_b1_deny context.policy_version in
    if same_resource resource.type Terms.ResourceType.claim
    then elim (load_proposal context (tx proposal) resource.id) [
      | none ↦ denied
      | some row ↦
          if can_read_data_class context.data_class_ceiling row.claim.access_class
          then if_readable context.policy_version
              (can_read_space_resource tx context row.claim.space_id role options.lock_authority)
              (λ tokens.
                let is_owner = str_eq row.owner_person_id actor.person_id in
                if may_manage action (is_proposer_of actor row.claim) is_owner
                then allow context.policy_version (units "b2_primary_objective_proposal_manager")
                    none
                    (some (
                      tokens
                      ++ (if is_owner then units "initiative_owner" else units "original_proposer")
                        ∷ []))
                else denied)
          else denied
    ]
    else denied
