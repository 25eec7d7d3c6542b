-- ===== src/Authorization/Service/Laws.antt =====
-- packages/authorization/src/authorization-service.ts: what an allowed change of a fact or of a
-- proposal rests on.
use throughline.Prelude.{◌≡◌, true, arith, Option-cases, inl, inr}
use throughline.Authorization.Terms.{
  Action, DecisionOptions, MembershipRole, ResourceRef, SecurityContext, non_leaking_b1_deny,
}
use throughline.Authorization.Tables.{Transaction}
use throughline.Authorization.Actors.{ActiveMembership, Actor, exact_human_authority_actor}
use throughline.Authorization.TruthDecision.{actor_decision, truth_mutation_decision}
use throughline.Authorization.Service.Standing.{ActsFor, ActsFor-of}
use throughline.Authorization.Service.FactChanges.{FactAuthority, lifecycle-FactAuthority}
use throughline.Authorization.Service.ProposalChanges.{
  IsProposal, ProposalAuthority, proposal-ProposalAuthority, reject, rework, withdraw,
}

pub data IsLifecycle : Action → Type 0 where
  supersede : IsLifecycle Action.fact_supersede
  revoke : IsLifecycle Action.fact_revoke

module _ (tx : Transaction) (context : SecurityContext) (role : MembershipRole)
    (options : DecisionOptions) where
  allowed_actor :
      (action : Action) (resource : ResourceRef) (member : ActiveMembership)
      → (truth_mutation_decision tx context role action resource options member).allowed ≡ true
      → (actor : Actor) × ActsFor context member actor
        × ((actor_decision tx context role action resource options actor).allowed ≡ true)
  unfolding truth_mutation_decision non_leaking_b1_deny
  allowed_actor action resource member h =
      elim (Option-cases (exact_human_authority_actor context member)) [
        | inl e ↦ absurd (ground (arith, e, h))
        | inr (actor, e) ↦
            (actor, ActsFor-of context member actor e (ground (arith, e, h)), ground (arith, e, h))
      ]

  -- A decision that lets a member supersede or revoke a fact was made for a person who is an active
  -- member and an active user, the one of the context, and displayed by it. The resource is a fact of
  -- the workspace: current in version 1, or, where the options ask for a replay, superseded or revoked
  -- in version 2, with the predicate of its type of subject, in a space that is not archived. The
  -- context requests the fact's space and no other, its ceiling is not below the class of the fact and
  -- the class of the space, the person owns the fact's subject, which is in the same space, and may
  -- read the space.
  pub truth_mutation-FactAuthority :
      (action : Action) (resource : ResourceRef) (member : ActiveMembership)
      → IsLifecycle action
      → (truth_mutation_decision tx context role action resource options member).allowed ≡ true
      → (actor : Actor) × ActsFor context member actor
        × FactAuthority tx context role options resource actor
  unfolding actor_decision
  truth_mutation-FactAuthority _ resource member supersede h =
      let (actor, acts, allowed) = allowed_actor Action.fact_supersede resource member h in
      (actor, acts, lifecycle-FactAuthority tx context role options resource actor allowed)
  truth_mutation-FactAuthority _ resource member revoke h =
      let (actor, acts, allowed) = allowed_actor Action.fact_revoke resource member h in
      (actor, acts, lifecycle-FactAuthority tx context role options resource actor allowed)

  actor_proposal :
      (action : Action) (resource : ResourceRef) (actor : Actor)
      → IsProposal action
      → (actor_decision tx context role action resource options actor).allowed ≡ true
      → ProposalAuthority tx context role options action resource actor
  unfolding actor_decision
  actor_proposal _ resource actor withdraw h =
      proposal-ProposalAuthority tx context role options Action.proposal_withdraw resource actor
        withdraw h
  actor_proposal _ resource actor reject h =
      proposal-ProposalAuthority tx context role options Action.proposal_reject resource actor
        reject h
  actor_proposal _ resource actor rework h =
      proposal-ProposalAuthority tx context role options Action.proposal_rework resource actor
        rework h

  -- A decision that lets a member withdraw, reject or rework a proposal was made for a person who is
  -- an active member and an active user, the one of the context, and displayed by it. The resource is
  -- a claim of the workspace on the primary objective of an initiative, both in one space that is not
  -- archived; the context's ceiling is not below the class of the claim, and the person may read the
  -- space. Who reworks made the claim under the same membership, who rejects owns the initiative, and
  -- who withdraws is one of the two.
  pub truth_mutation-ProposalAuthority :
      (action : Action) (resource : ResourceRef) (member : ActiveMembership)
      → IsProposal action
      → (truth_mutation_decision tx context role action resource options member).allowed ≡ true
      → (actor : Actor) × ActsFor context member actor
        × ProposalAuthority tx context role options action resource actor
  truth_mutation-ProposalAuthority action resource member proposal h =
      let (actor, acts, allowed) = allowed_actor action resource member h in
      (actor, acts, actor_proposal action resource actor proposal allowed)
