-- ===== src/Authorization/Service.antt =====
-- packages/authorization/src/authorization-service.ts: the order of the checks of a decision
-- (`decideInTransaction`). The decisions on the four actions of the foundation proof, the relays and
-- the worker are the argument `system`.
pub mod Standing
pub mod FactRows
pub mod FactChanges
pub mod ProposalChanges
pub mod Laws
pub mod Allowed
pub mod Denials
pub mod Reads
mod Tests
use throughline.Prelude.{
  Bool, true, false, ◌&&◌, ◌||◌, not, Option, none, some, List, [], ◌∷◌, JsString, units, str_eq,
  if◌then◌else◌,
}
use throughline.Authorization.Terms.{
  Action, AuthorizationDecision, DecisionOptions, MembershipRole, ResourceRef, ResourceType,
  SecurityContext, allow, deny, equals_given, is_b1_action, is_given, owner_or_admin_decision,
  same_resource,
}
use throughline.Authorization.Terms
use throughline.Authorization.Tables.{Query, Transaction}
use throughline.Authorization.Spaces.{SpaceRead, can_read_space_resource}
use throughline.Authorization.Actors.{
  ActiveMembership, is_active_membership, is_active_user, load_active_membership,
  load_active_policy_record,
}
use throughline.Authorization.ResourceDecision.{b1_decision}

unfoldable pub is_system_action : Action → Bool
is_system_action Terms.foundation_proof_create = true
is_system_action Terms.foundation_relay_publish = true
is_system_action Terms.foundation_worker_consume = true
is_system_action Terms.product_outbox_relay_publish = true
is_system_action _ = false

-- A resource of the type and with the id that the context has.
unfoldable pub is_own : ResourceRef → ResourceType → Option JsString → Bool
is_own resource type id = same_resource resource.type type && equals_given resource.id id

unfoldable pub wrong_workspace : SecurityContext → AuthorizationDecision
wrong_workspace context =
    deny context.policy_version (units "wrong_workspace")
      (some (units "Resource is outside the current workspace"))

-- The decision on a space that the actor may read.
unfoldable pub readable_space_decision :
    SecurityContext → MembershipRole → Action → DecisionOptions → SpaceRead → AuthorizationDecision
readable_space_decision context role Terms.space_read options readable =
    allow context.policy_version readable.reason_code
      (if options.explain then readable.explanation else none) (some readable.authority_tokens)
readable_space_decision context role Terms.space_create_child options readable =
    owner_or_admin_decision context.policy_version role (units "space.create_child")
readable_space_decision context role Terms.space_manage_access options readable =
    owner_or_admin_decision context.policy_version role (units "space.manage_access")
readable_space_decision context role _ options readable =
    deny context.policy_version (units "unsupported_action")
      (some (units "Action is not implemented in A2"))

unfoldable pub space_decision :
    Transaction
    → SecurityContext
    → MembershipRole
    → Action
    → ResourceRef
    → DecisionOptions
    → AuthorizationDecision
unfolding readable_space_decision
space_decision tx context role action resource options =
    if same_resource resource.type Terms.ResourceType.space
    then (let readable =
          can_read_space_resource tx context resource.id role options.lock_authority in
        if readable.allowed
        then readable_space_decision context role action options readable
        else deny context.policy_version readable.reason_code readable.explanation)
    else deny context.policy_version (units "unsupported_resource")
        (some (units "A2 action requires a Space resource"))

-- The decision for an active member.
unfoldable pub member_decision :
    Transaction
    → SecurityContext
    → Action
    → ResourceRef
    → DecisionOptions
    → ActiveMembership
    → AuthorizationDecision
unfolding is_own wrong_workspace space_decision b1_decision
member_decision tx context Terms.tenant_read resource options member =
    if is_own resource Terms.ResourceType.tenant (some context.tenant_id)
    then allow context.policy_version (units "tenant_member")
        (if options.explain then some (units "Active membership may read current tenant") else none)
        none
    else deny context.policy_version (units "wrong_tenant")
        (some (units "Resource is outside the current tenant"))
member_decision tx context Terms.workspace_read resource options member =
    if is_own resource Terms.ResourceType.workspace (some context.workspace_id)
    then allow context.policy_version (units "workspace_member") none none
    else wrong_workspace context
member_decision tx context Terms.identity_me_read resource options member =
    if is_own resource Terms.ResourceType.user context.actor_user_id
    then allow context.policy_version (units "current_user_self_read") none none
    else deny context.policy_version (units "not_self")
        (some (units "identity.me.read only allows the current user"))
member_decision tx context Terms.membership_read resource options member =
    if is_own resource Terms.ResourceType.membership context.actor_membership_id
    then allow context.policy_version (units "current_membership_read") none none
    else deny context.policy_version (units "not_current_membership")
        (some (units "Membership read is limited to the current membership in A2"))
member_decision tx context Terms.workspace_manage_members resource options member =
    if is_own resource Terms.ResourceType.workspace (some context.workspace_id)
    then owner_or_admin_decision context.policy_version member.role
        (units "workspace_members_manage")
    else wrong_workspace context
member_decision tx context action resource options member =
    if is_b1_action action
    then b1_decision tx context member.role action resource options member
    else space_decision tx context member.role action resource options

unfoldable pub membership_decision :
    Transaction
    → SecurityContext
    → Action
    → ResourceRef
    → DecisionOptions
    → Option ActiveMembership
    → AuthorizationDecision
unfolding member_decision is_active_membership is_active_user
membership_decision tx context action resource options none =
    deny context.policy_version (units "membership_not_active")
      (some (units "No active membership matches the current context"))
membership_decision tx context action resource options (some member) =
    if is_active_user member.user_status && is_active_membership member.membership_status
    then member_decision tx context action resource options member
    else deny context.policy_version (units "principal_not_active")
        (some (units "User or membership is not active"))

unfoldable pub decide_in_transaction :
    (Action → ResourceRef → DecisionOptions → AuthorizationDecision)
    → Transaction
    → SecurityContext
    → Action
    → ResourceRef
    → DecisionOptions
    → AuthorizationDecision
unfolding is_system_action load_active_policy_record load_active_membership membership_decision
decide_in_transaction system tx context action resource options =
    if is_system_action action
    then system action resource options
    else elim (load_active_policy_record context (tx Query.policy)) [
      | none ↦ deny context.policy_version (units "policy_version_not_active") (
          some (
            units
              "SecurityContext policy version is not active for the current tenant and workspace"))
      | some _ ↦
          if is_given context.service_principal_id || is_given context.agent_principal_id
          then deny context.policy_version (units "principal_default_denied")
              (some (units "Service and agent principals have no A2 allow rules"))
          else membership_decision tx context action resource options
              (load_active_membership context (tx Query.membership))
    ]
