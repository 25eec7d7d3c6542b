-- ===== src/Authorization/Service/Allowed.antt =====
-- packages/authorization/src/authorization-service.ts: `decideInTransaction` denies by default.
use throughline.Prelude.{◌≡◌, true, false, some, arith, Option-cases, inl, inr}
use throughline.Authorization.Terms.{
  Action, AuthorizationDecision, DecisionOptions, ResourceRef, SecurityContext, deny, is_given,
}
use throughline.Authorization.Tables.{PolicyVersion, Query, Transaction}
use throughline.Authorization.Actors.{
  ActiveMembership, is_active_membership, is_active_user, load_active_membership,
  load_active_policy_record,
}
use throughline.Authorization.Service.{
  decide_in_transaction, is_system_action, member_decision, membership_decision,
}

module _ (tx : Transaction) (context : SecurityContext) where
  -- What every allowed decision rests on.
  pub record ActivePrincipal (action : Action) (resource : ResourceRef) (options : DecisionOptions)
      : Type 0 where
    pub policy : PolicyVersion
    pub member : ActiveMembership
    pub has_policy : load_active_policy_record context (tx Query.policy) ≡ some policy
    pub no_service : is_given context.service_principal_id ≡ false
    pub no_agent : is_given context.agent_principal_id ≡ false
    pub has_membership : load_active_membership context (tx Query.membership) ≡ some member
    pub active_user : is_active_user member.user_status ≡ true
    pub active_membership : is_active_membership member.membership_status ≡ true
    pub member_allowed : (member_decision tx context action resource options member).allowed ≡ true

  -- A decision on any action but the four system actions that allows it was made under an active
  -- version of the context's policy, for a context without a service or agent principal, and for an
  -- active membership of an active user that the context names; and the rules for that member allow
  -- the action.
  pub decide-ActivePrincipal :
      (system : Action → ResourceRef → DecisionOptions → AuthorizationDecision) (action : Action)
      (resource : ResourceRef) (options : DecisionOptions)
      → is_system_action action ≡ false
      → (decide_in_transaction system tx context action resource options).allowed ≡ true
      → ActivePrincipal action resource options
  unfolding decide_in_transaction membership_decision deny
  decide-ActivePrincipal system action resource options ordinary h =
      elim (Option-cases (load_active_policy_record context (tx Query.policy))) [
        | inl e ↦ absurd (ground (arith, ordinary, e, h))
        | inr (policy, e) ↦
            elim (Option-cases (load_active_membership context (tx Query.membership))) [
              | inl e' ↦ absurd (ground (arith, ordinary, e, e', h))
              | inr (member, e') ↦ record {
                policy = policy;
                member = member;
                has_policy = e;
                no_service = ground (arith, ordinary, e, e', h);
                no_agent = ground (arith, ordinary, e, e', h);
                has_membership = e';
                active_user = ground (arith, ordinary, e, e', h);
                active_membership = ground (arith, ordinary, e, e', h);
                member_allowed = ground (arith, ordinary, e, e', h);
              }
            ]
      ]
