-- ===== src/Authorization/Actors.antt =====
-- packages/authorization/src/authorization-service.ts: the policy, the membership and the person
-- behind a context (`loadActivePolicyRecord`, `loadActiveMembership`, `exactHumanAuthorityActor`),
-- and who may contribute to a space (`contributorAuthority`).
use throughline.Prelude.{
  Bool, true, false, ◌&&◌, Option, none, some, List, [], ◌∷◌, JsString, str_eq, if◌then◌else◌,
}
use throughline.Authorization.Terms.{
  MembershipRole, SecurityContext, equals_given, is_given, is_owner_or_admin,
}
use throughline.Authorization.Tables.{
  Database, Grant, Membership, MembershipStatus, PolicyVersion, Query, Relation, Transaction, User,
  UserStatus,
}
use throughline.Authorization.Tables.Queries.{
  find_where, grants_by_id, in_workspace, is_row, names_actor, pick, provided,
}
use throughline.Authorization.Spaces.Locking.{space_grant_token}

unfoldable pub load_active_policy_record : SecurityContext → Database → Option PolicyVersion
load_active_policy_record context database =
    find_where (λ policy. is_row context context.policy_version policy.key && policy.is_active)
      database.policy_versions

-- MembershipRecord
pub record ActiveMembership : Type 0 where
  pub membership_id : JsString
  pub user_id : JsString
  pub person_id : Option JsString
  pub role : MembershipRole
  pub membership_status : MembershipStatus
  pub user_status : UserStatus

unfoldable pub is_present : Option JsString → Bool
is_present none = false
is_present (some text) = true

unfoldable pub membership_record : Membership → User → ActiveMembership
membership_record membership user = record {
  membership_id = membership.key.id;
  user_id = membership.user_id;
  person_id = membership.person_id;
  role = membership.role;
  membership_status = membership.status;
  user_status = user.status;
}

unfoldable pub is_members_row : SecurityContext → Membership → Bool
unfolding is_present
is_members_row context membership =
    equals_given membership.key.id context.actor_membership_id
    && (equals_given membership.user_id context.actor_user_id
        && (in_workspace context membership.key.tenant_id membership.key.workspace_id
            && is_present membership.person_id))

unfoldable pub load_active_membership : SecurityContext → Database → Option ActiveMembership
unfolding is_members_row membership_record
load_active_membership context database =
    pick
      (λ membership.
        pick
          (λ user.
            provided (is_members_row context membership && str_eq user.id membership.user_id)
              (some (membership_record membership user)))
          database.users)
      database.memberships

unfoldable pub is_active_membership : MembershipStatus → Bool
is_active_membership MembershipStatus.active = true
is_active_membership _ = false

unfoldable pub is_active_user : UserStatus → Bool
is_active_user UserStatus.active = true
is_active_user _ = false

pub record Actor : Type 0 where
  pub membership_id : JsString
  pub user_id : JsString
  pub person_id : JsString

-- exactHumanAuthorityActor
unfoldable pub exact_human_authority_actor : SecurityContext → ActiveMembership → Option Actor
unfolding is_active_membership is_active_user
exact_human_authority_actor context membership =
    if is_given context.actor_membership_id
      && (is_given context.actor_user_id
          && (equals_given membership.membership_id context.actor_membership_id
              && (equals_given membership.user_id context.actor_user_id
                  && (is_given membership.person_id
                      && (is_active_membership membership.membership_status
                          && is_active_user membership.user_status)))))
    then elim membership.person_id [
      | none ↦ none
      | some person_id ↦ some (record {
        membership_id = membership.membership_id;
        user_id = membership.user_id;
        person_id = person_id;
      })
    ]
    else none

-- `relation IN ('owner','manager','contributor')`
unfoldable pub may_contribute : Relation → Bool
may_contribute Relation.viewer = false
may_contribute _ = true

unfoldable pub contributor_grants : SecurityContext → Database → JsString → List Grant
unfolding may_contribute
contributor_grants context database space_id =
    grants_by_id
      (λ grant.
        in_workspace context grant.key.tenant_id grant.key.workspace_id
        && (str_eq grant.resource_id space_id
            && (may_contribute grant.relation
                && names_actor context grant.subject_type grant.subject_id)))
      database.access_relationships

unfoldable pub first_token : List Grant → Option (List JsString)
first_token [] = none
first_token (grant ∷ _) = some (space_grant_token grant.key.id grant.resource_id ∷ [])

-- The tokens of an actor who may contribute.
unfoldable pub contributor_authority :
    Transaction → SecurityContext → JsString → MembershipRole → Option (List JsString)
unfolding contributor_grants first_token
contributor_authority tx context space_id role =
    if is_owner_or_admin role
    then some []
    else first_token (contributor_grants context (tx Query.contributor) space_id)
