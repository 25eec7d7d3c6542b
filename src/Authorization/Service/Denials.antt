-- ===== src/Authorization/Service/Denials.antt =====
-- packages/authorization/src/authorization-service.ts: a denied decision on a resource of the
-- workspace is the same whether the resource is missing, hidden or not the actor's to change.
use throughline.Prelude.{
  ◌≡◌, refl, Bool, false, Option, none, some, List, JsString, units, arith, Option-cases,
  Bool-cases, inl, inr,
}
use throughline.Authorization.Terms.{
  Action, AuthorizationDecision, DecisionOptions, MembershipRole, ResourceRef, SecurityContext,
  allow, is_truth_mutation_action, non_leaking_b1_deny,
}
use throughline.Authorization.Tables.{Query, Transaction}
use throughline.Authorization.Spaces.{can_read_space_resource}
use throughline.Authorization.Resources.{ResourceScope, b1_scope}
use throughline.Authorization.Actors.{
  ActiveMembership, Actor, contributor_authority, exact_human_authority_actor,
}
use throughline.Authorization.Mutations.{
  fact_lifecycle_mutation_decision, if_readable, load_lifecycle_fact, load_proposal, load_subject,
  objective_proposal_mutation_decision,
}
use throughline.Authorization.TruthDecision.{
  TruthTarget, actor_decision, load_truth_authority_target, target_decision, targeted_decision,
  truth_mutation_decision,
}
use throughline.Authorization.ResourceDecision.{
  b1_decision, needs_workspace_authority, person_read_decision, resource_decision, scoped_decision,
  use_site_scope,
}

-- A denial is the one that says nothing.
abbrev IsSilent : JsString → AuthorizationDecision → Type 0
IsSilent policy_version decision =
    decision.allowed ≡ false → decision ≡ non_leaking_b1_deny policy_version

module _ (tx : Transaction) (context : SecurityContext) (role : MembershipRole) where
  module _ (options : DecisionOptions) where
    lifecycle-IsSilent :
        (resource : ResourceRef) (actor : Actor) (replay : Bool)
        → IsSilent context.policy_version
            (fact_lifecycle_mutation_decision tx context role resource options actor replay)
    unfolding fact_lifecycle_mutation_decision if_readable allow
    lifecycle-IsSilent resource actor replay h =
        elim (Option-cases
          (load_lifecycle_fact context (tx Query.target_scope) resource.id replay)) [
            | inl e ↦ ground (arith, e, h)
            | inr (row, e) ↦
                elim (Option-cases (
                  load_subject context (tx Query.target_subject) row.fact.subject_type
                    row.fact.subject_id row.fact.space_id)) [
                      | inl e' ↦ ground (arith, e, e', h)
                      | inr (subject, e') ↦ ground (arith, e, e', h)
                    ]
          ]

    proposal-IsSilent :
        (action : Action) (resource : ResourceRef) (actor : Actor)
        → IsSilent context.policy_version
            (objective_proposal_mutation_decision tx context role action resource options actor)
    unfolding objective_proposal_mutation_decision if_readable allow
    proposal-IsSilent action resource actor h =
        elim (Option-cases (load_proposal context (tx Query.proposal) resource.id)) [
          | inl e ↦ ground (arith, e, h)
          | inr (row, e) ↦ ground (arith, e, h)
        ]

    target-IsSilent :
        (action : Action) (actor : Actor) (target : TruthTarget) (tokens : List JsString)
        → IsSilent context.policy_version
            (target_decision tx context role action actor target tokens)
    unfolding target_decision allow
    target-IsSilent Action.claim_create actor target tokens h =
        elim (Option-cases (contributor_authority tx context target.space_id role)) [
          | inl e ↦ ground (arith, e, h)
          | inr (more, e) ↦ ground (arith, e, h)
        ]
    target-IsSilent _ actor target tokens h = ground (arith, h)

    targeted-IsSilent :
        (action : Action) (resource : ResourceRef) (actor : Actor)
        → IsSilent context.policy_version
            (targeted_decision tx context role action resource options actor)
    unfolding targeted_decision if_readable
    targeted-IsSilent action resource actor h =
        elim (Option-cases
          (load_truth_authority_target context (tx Query.target_scope) action resource)) [
            | inl e ↦ ground (arith, e, h)
            | inr (target, e) ↦ ground (
              arith,
              e,
              h,
              target-IsSilent action actor target
                  (can_read_space_resource tx context target.space_id role
                    options.lock_authority).authority_tokens,
            )
          ]

    actor-IsSilent :
        (action : Action) (resource : ResourceRef) (actor : Actor)
        → IsSilent context.policy_version
            (actor_decision tx context role action resource options actor)
    unfolding actor_decision
    actor-IsSilent Action.proposal_withdraw resource actor =
        proposal-IsSilent Action.proposal_withdraw resource actor
    actor-IsSilent Action.proposal_reject resource actor =
        proposal-IsSilent Action.proposal_reject resource actor
    actor-IsSilent Action.proposal_rework resource actor =
        proposal-IsSilent Action.proposal_rework resource actor
    actor-IsSilent Action.fact_supersede resource actor =
        lifecycle-IsSilent resource actor options.fact_lifecycle_replay
    actor-IsSilent Action.fact_revoke resource actor =
        lifecycle-IsSilent resource actor options.fact_lifecycle_replay
    actor-IsSilent action resource actor = targeted-IsSilent action resource actor

    mutation-IsSilent :
        (action : Action) (resource : ResourceRef) (member : ActiveMembership)
        → IsSilent context.policy_version
            (truth_mutation_decision tx context role action resource options member)
    unfolding truth_mutation_decision
    mutation-IsSilent action resource member h =
        elim (Option-cases (exact_human_authority_actor context member)) [
          | inl e ↦ ground (arith, e, h)
          | inr (actor, e) ↦ ground (arith, e, h, actor-IsSilent action resource actor)
        ]

    scoped-IsSilent :
        (scope : Option ResourceScope)
        (decide : ResourceScope → List JsString → AuthorizationDecision)
        → ((found : ResourceScope) (tokens : List JsString)
            → IsSilent context.policy_version (decide found tokens))
        → IsSilent context.policy_version (scoped_decision tx context role options scope decide)
    unfolding scoped_decision if_readable
    scoped-IsSilent none decide silent h = refl
    scoped-IsSilent (some found) decide silent h = ground (
      arith,
      h,
      silent found
          (can_read_space_resource tx context found.space_id role
            options.lock_authority).authority_tokens,
    )

    resource-IsSilent :
        (action : Action) (found : ResourceScope) (tokens : List JsString)
        → needs_workspace_authority action ≡ false
        → IsSilent context.policy_version
            (resource_decision tx context role action options found tokens)
    unfolding resource_decision allow non_leaking_b1_deny
    resource-IsSilent action found tokens ordinary h =
        elim (Option-cases (contributor_authority tx context found.space_id role)) [
          | inl e ↦ ground (arith, ordinary, e, h)
          | inr (more, e) ↦ ground (arith, ordinary, e, h)
        ]

    -- The end of `personReadDecision`.
    abbrev person_read : ResourceScope → List JsString → AuthorizationDecision
    person_read _ tokens =
        allow context.policy_version (units "person_use_site_read") none (some tokens)

    person_read-IsSilent :
        (found : ResourceScope) (tokens : List JsString)
        → IsSilent context.policy_version (person_read found tokens)
    unfolding allow
    person_read-IsSilent found tokens h = absurd (ground (arith, h))

    person-IsSilent :
        (resource : ResourceRef)
        → IsSilent context.policy_version (person_read_decision tx context role resource options)
    unfolding person_read_decision
    person-IsSilent resource h = elim (Option-cases options.person_use_site) [
      | inl e ↦ ground (arith, e, h)
      | inr (site, e) ↦ ground (
        arith,
        e,
        h,
        scoped-IsSilent (use_site_scope context (tx Query.use_site) site.type site.id resource.id)
            person_read (λ found tokens. person_read-IsSilent found tokens),
      )
    ]

    -- A denied decision of a member on a resource of the workspace, on any action but the two that
    -- need an owner or admin, is one and the same for all reasons: the policy version, a code that
    -- names no reason, and no explanation.
    pub b1_decision-silent :
        (action : Action) (resource : ResourceRef) (member : ActiveMembership)
        → needs_workspace_authority action ≡ false
        → (b1_decision tx context role action resource options member).allowed ≡ false
        → b1_decision tx context role action resource options member
          ≡ non_leaking_b1_deny context.policy_version
    unfolding b1_decision
    b1_decision-silent Action.person_read resource member ordinary h = person-IsSilent resource h
    b1_decision-silent action resource member ordinary h =
        elim (Bool-cases (is_truth_mutation_action action)) [
          | inl e ↦ ground (arith, e, h, mutation-IsSilent action resource member)
          | inr e ↦ ground (
            arith,
            e,
            h,
            scoped-IsSilent (b1_scope context (tx Query.target_scope) action resource options)
                (resource_decision tx context role action options)
                (λ found tokens. resource-IsSilent action found tokens ordinary),
          )
        ]
