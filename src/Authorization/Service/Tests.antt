-- ===== src/Authorization/Service/Tests.antt =====
-- packages/authorization/src/authorization-service.ts: decisions in a small workspace.
use throughline.Prelude.{◌≡◌, refl, true, false, none, units}
use throughline.Prelude.{str_eq, includes}
use throughline.Authorization.Terms.{
  allow, can_read_data_class, equals_given, is_b1_action, is_create_action, is_given,
  is_owner_or_admin, same_resource, Action, AuthorizationDecision, DecisionOptions, MembershipRole,
  ResourceRef, ResourceType, non_leaking_b1_deny,
}
use throughline.Authorization.Tables.Queries.{
  find_where, grants_by_id, greatest_class, in_workspace, is_row, joined_space, live_space,
  names_actor, pick, provided,
}
use throughline.Authorization.Spaces.{can_read_space_resource}
use throughline.Authorization.Spaces.Locking.{lock_or_confirm_inherited_space_grant}
use throughline.Authorization.Spaces.Walk.{
  authority_path, inherited_grants, load_inherited_authority_path, parent_row, space_grants,
}
use throughline.Authorization.Actors.{Actor, exact_human_authority_actor}
use throughline.Authorization.TruthDecision.{truth_mutation_decision}
use throughline.Authorization.ResourceDecision.{b1_decision, needs_workspace_authority}
use throughline.Authorization.Service.{decide_in_transaction, is_system_action}
use throughline.Authorization.Service.Allowed.{ActivePrincipal, decide-ActivePrincipal}
use throughline.Authorization.Service.Denials.{b1_decision-silent}
use throughline.Authorization.Service.Standing.{ActsFor}
use throughline.Authorization.Service.FactChanges.{FactAuthority}
use throughline.Authorization.Service.ProposalChanges.{ProposalAuthority, reject}
use throughline.Authorization.Service.Laws.{
  supersede, truth_mutation-FactAuthority, truth_mutation-ProposalAuthority,
}
use throughline.Authorization.Examples.{context, database, member, options, resource}

abbrev no_system : Action → ResourceRef → DecisionOptions → AuthorizationDecision
no_system _ _ _ = record {
  allowed = false;
  reason_code = units "none";
  explanation = none;
  policy_version = units "v";
  evaluated_relationships = none;
}

reads_team :
    (decide_in_transaction no_system
      (λ _. database)
      context
      Action.space_read
      (resource ResourceType.space (units "team"))
      options).allowed
    ≡ true
unfolding decide_in_transaction can_read_space_resource live_space find_where is_row str_eq
    is_owner_or_admin space_grants grants_by_id inherited_grants authority_path parent_row
    names_actor equals_given lock_or_confirm_inherited_space_grant load_inherited_authority_path
    includes pick provided same_resource is_given in_workspace allow is_b1_action
reads_team = refl

supersedes :
    (truth_mutation_decision
      (λ _. database)
      context
      MembershipRole.member
      Action.fact_supersede
      (resource ResourceType.fact (units "f"))
      options
      member).allowed
    ≡ true
unfolding truth_mutation_decision can_read_space_resource live_space find_where is_row str_eq
    is_owner_or_admin space_grants grants_by_id inherited_grants authority_path parent_row
    names_actor equals_given lock_or_confirm_inherited_space_grant load_inherited_authority_path
    includes pick provided same_resource is_given exact_human_authority_actor can_read_data_class
    joined_space greatest_class in_workspace allow is_b1_action
supersedes = refl

not_terminal :
    (truth_mutation_decision
      (λ _. database)
      context
      MembershipRole.member
      Action.fact_supersede
      (resource ResourceType.fact (units "old"))
      options
      member).allowed
    ≡ false
unfolding truth_mutation_decision exact_human_authority_actor is_given equals_given str_eq
    same_resource pick provided is_row non_leaking_b1_deny
not_terminal = refl

rejects :
    (truth_mutation_decision
      (λ _. database)
      context
      MembershipRole.member
      Action.proposal_reject
      (resource ResourceType.claim (units "c"))
      options
      member).allowed
    ≡ true
unfolding truth_mutation_decision can_read_space_resource live_space find_where is_row str_eq
    is_owner_or_admin space_grants grants_by_id inherited_grants authority_path parent_row
    names_actor equals_given lock_or_confirm_inherited_space_grant load_inherited_authority_path
    includes pick provided same_resource is_given exact_human_authority_actor can_read_data_class
    joined_space greatest_class in_workspace allow is_b1_action
rejects = refl

missing_fact :
    (b1_decision
      (λ _. database)
      context
      MembershipRole.member
      Action.fact_read
      (resource ResourceType.fact (units "x"))
      options
      member).allowed
    ≡ false
unfolding b1_decision is_create_action same_resource pick provided is_row str_eq non_leaking_b1_deny
missing_fact = refl

space_read_ordinary : is_system_action Action.space_read ≡ false
unfolding is_system_action
space_read_ordinary = refl

fact_read_ordinary : needs_workspace_authority Action.fact_read ≡ false
unfolding needs_workspace_authority
fact_read_ordinary = refl

decide-ActivePrincipal_example :
    ActivePrincipal
      (λ _. database)
      context
      Action.space_read
      (resource ResourceType.space (units "team"))
      options
decide-ActivePrincipal_example =
    decide-ActivePrincipal (λ _. database) context no_system Action.space_read
      (resource ResourceType.space (units "team")) options space_read_ordinary reads_team

truth_mutation-FactAuthority_example :
    (actor : Actor) × ActsFor context member actor
    × FactAuthority
        (λ _. database)
        context
        MembershipRole.member
        options
        (resource ResourceType.fact (units "f"))
        actor
truth_mutation-FactAuthority_example =
    truth_mutation-FactAuthority (λ _. database) context MembershipRole.member options
      Action.fact_supersede (resource ResourceType.fact (units "f")) member supersede supersedes

truth_mutation-ProposalAuthority_example :
    (actor : Actor) × ActsFor context member actor
    × ProposalAuthority
        (λ _. database)
        context
        MembershipRole.member
        options
        Action.proposal_reject
        (resource ResourceType.claim (units "c"))
        actor
truth_mutation-ProposalAuthority_example =
    truth_mutation-ProposalAuthority (λ _. database) context MembershipRole.member options
      Action.proposal_reject (resource ResourceType.claim (units "c")) member reject rejects

b1_decision-silent_example :
    b1_decision
      (λ _. database)
      context
      MembershipRole.member
      Action.fact_read
      (resource ResourceType.fact (units "x"))
      options
      member
    ≡ non_leaking_b1_deny (units "v")
b1_decision-silent_example =
    b1_decision-silent (λ _. database) context MembershipRole.member options Action.fact_read
      (resource ResourceType.fact (units "x")) member fact_read_ordinary missing_fact
