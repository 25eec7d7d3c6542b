-- ===== src/Authorization/Spaces.antt =====
-- packages/authorization/src/authorization-service.ts: who may read a space (`canReadSpaceResource`),
-- on the path without relationship discovery and without a target that the caller has locked. The
-- recursive query climbs as many steps as the table has rows; Spaces.Climb shows that this is enough
-- where the parents do not go in a circle.
pub mod Walk
pub mod Locking
pub mod Climb
pub mod Grants
pub mod Inherited
pub mod Members
pub mod Confirmed
pub mod Laws
mod Tests
use throughline.Prelude.{
  Bool, true, false, ◌&&◌, not, Option, none, some, List, [], ◌∷◌, ◌++◌, JsString, units, str_eq,
  if◌then◌else◌,
}
use throughline.Authorization.Terms.{MembershipRole, SecurityContext, is_owner_or_admin}
use throughline.Authorization.Tables.{
  Database, Grant, InheritanceMode, Query, Space, SpaceKind, Transaction, inherit, restricted,
  workspace_root, space_lock, space_exists, space_access,
}
use throughline.Authorization.Tables.Queries.{grants_by_id, live_space, names_actor}
use throughline.Authorization.Spaces.Walk.{
  PathRow, authority_path, inherited_grants, is_restricted, space_grants,
}
use throughline.Authorization.Spaces.Locking.{
  lock_or_confirm_space_grant, lock_or_confirm_inherited_space_grant, space_grant_token,
}

pub record SpaceRead : Type 0 where
  pub allowed : Bool
  pub reason_code : JsString
  pub explanation : Option JsString
  pub authority_tokens : List JsString

unfoldable pub readable_by : JsString → List JsString → SpaceRead
readable_by reason_code authority_tokens = record {
  allowed = true;
  reason_code = reason_code;
  explanation = none;
  authority_tokens = authority_tokens;
}

unfoldable pub space_not_found : SpaceRead
space_not_found = record {
  allowed = false;
  reason_code = units "space_not_found";
  explanation = some (units "Space is not visible in the current workspace");
  authority_tokens = [];
}

unfoldable pub space_access_denied : SpaceRead
space_access_denied = record {
  allowed = false;
  reason_code = units "space_access_denied";
  explanation = some (units "No current Space grant authorizes this action");
  authority_tokens = [];
}

unfoldable pub is_workspace_root : SpaceKind → Bool
is_workspace_root workspace_root = true
is_workspace_root _ = false

-- The result of the query: the columns that the code reads.
pub record SpaceAccess : Type 0 where
  pub is_root : Bool
  pub target_restricted : Bool
  pub direct_grants : List Grant
  pub passed_grants : List Grant

unfoldable pub load_space_access : SecurityContext → Database → JsString → Option SpaceAccess
unfolding is_workspace_root
load_space_access context database space_id = elim (live_space context database space_id) [
  | none ↦ none
  | some target ↦ some (record {
    is_root = is_workspace_root target.kind;
    target_restricted = is_restricted target;
    direct_grants = space_grants context database space_id;
    passed_grants = inherited_grants context database (authority_path context database space_id);
  })
]

-- A grant that is still there gives its token; with none the next rule is tried.
unfoldable pub read_by_token : JsString → Option JsString → SpaceRead → SpaceRead
unfolding readable_by
read_by_token reason_code none next = next
read_by_token reason_code (some token) next = readable_by reason_code (token ∷ [])

unfoldable pub inherited_read :
    Transaction → SecurityContext → JsString → Bool → Bool → List Grant → SpaceRead
unfolding read_by_token space_access_denied
inherited_read tx context space_id lock_authority target_restricted [] = space_access_denied
inherited_read tx context space_id lock_authority target_restricted (grant ∷ _) =
    if target_restricted
    then space_access_denied
    else read_by_token (units "inherited_space_grant")
        (if lock_authority
          then lock_or_confirm_inherited_space_grant tx context space_id grant.key.id
              grant.resource_id
          else some (space_grant_token grant.key.id grant.resource_id))
        space_access_denied

unfoldable pub direct_read :
    Transaction → SecurityContext → Bool → List Grant → SpaceRead → SpaceRead
unfolding read_by_token
direct_read tx context lock_authority [] next = next
direct_read tx context lock_authority (grant ∷ _) next =
    read_by_token (units "direct_space_grant")
      (lock_or_confirm_space_grant tx context grant.key.id grant.resource_id lock_authority) next

-- The rules for a member or a viewer.
unfoldable pub granted_read : Transaction → SecurityContext → JsString → Bool → SpaceRead
unfolding load_space_access space_not_found readable_by direct_read inherited_read
granted_read tx context space_id lock_authority =
    elim (load_space_access context (tx space_access) space_id) [
      | none ↦ space_not_found
      | some access ↦
          if access.is_root
          then readable_by (units "workspace_root_read") []
          else direct_read tx context lock_authority access.direct_grants (
              inherited_read tx context space_id lock_authority access.target_restricted
                access.passed_grants)
    ]

-- The rule for owners and admins, with the row that is locked or looked up.
unfoldable pub admin_read : Option Space → SpaceRead
unfolding readable_by space_not_found
admin_read none = space_not_found
admin_read (some space) = readable_by (units "workspace_admin_space_read") []

unfoldable pub can_read_space_resource :
    Transaction → SecurityContext → JsString → MembershipRole → Bool → SpaceRead
unfolding granted_read admin_read space_not_found
can_read_space_resource tx context space_id role lock_authority =
    if lock_authority
    then elim (live_space context (tx space_lock) space_id) [
      | none ↦ space_not_found
      | some locked ↦
          if is_owner_or_admin role
          then admin_read (some locked)
          else granted_read tx context space_id lock_authority
    ]
    else if is_owner_or_admin role
    then admin_read (live_space context (tx space_exists) space_id)
    else granted_read tx context space_id lock_authority
