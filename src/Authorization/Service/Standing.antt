-- ===== src/Authorization/Service/Standing.antt =====
-- packages/authorization/src/authorization-service.ts: who acts, and the rows that a decision finds,
-- said of their columns.
use mathlib.Core.List.{Memᴰ}
use throughline.Prelude.{
  ◌≡◌, refl, true, false, not, Option, none, some, JsString, str_eq_iff, arith, Option-cases, inl,
  inr, and_true,
}
use throughline.Authorization.Terms.{
  ResourceType, SecurityContext, equals_given, same_resource, type_number,
}
use throughline.Authorization.Tables.{Database, Key, MembershipStatus, Space, UserStatus}
use throughline.Authorization.Tables.Queries.{
  find_where-Mem, find_where-true, in_workspace, is_row, joined_space, provided-some,
}
use throughline.Authorization.Actors.{
  ActiveMembership, Actor, exact_human_authority_actor, is_active_membership, is_active_user,
}
use throughline.Authorization.Mutations.{unarchived}

equals_given-some :
    (column : JsString) (o : Option JsString) → equals_given column o ≡ true → o ≡ some column
unfolding equals_given
equals_given-some column none h = cc
equals_given-some column (some v) h = ground (arith, h, str_eq_iff column v)

-- The person who acts is an active member and an active user, is the one that the context is for, and
-- is the person that the context displays.
pub record ActsFor (context : SecurityContext) (member : ActiveMembership) (actor : Actor)
    : Type 0 where
  pub membership :
      (context.actor_membership_id ≡ some actor.membership_id)
      × (member.membership_id ≡ actor.membership_id)
  pub user : (context.actor_user_id ≡ some actor.user_id) × (member.user_id ≡ actor.user_id)
  pub person : member.person_id ≡ some actor.person_id
  pub active :
      (member.membership_status ≡ MembershipStatus.active)
      × (member.user_status ≡ UserStatus.active)
  pub displayed : context.actor_display_person_id ≡ some actor.person_id

active_membership :
    (s : MembershipStatus) → is_active_membership s ≡ true → s ≡ MembershipStatus.active
unfolding is_active_membership
active_membership MembershipStatus.invited h = cc
active_membership MembershipStatus.active h = refl
active_membership MembershipStatus.suspended h = cc

active_user : (s : UserStatus) → is_active_user s ≡ true → s ≡ UserStatus.active
unfolding is_active_user
active_user UserStatus.active h = refl
active_user UserStatus.disabled h = cc

-- What an actor was made from.
exact_actor :
    (context : SecurityContext) (member : ActiveMembership) (actor : Actor)
    → exact_human_authority_actor context member ≡ some actor
    → (equals_given member.membership_id context.actor_membership_id ≡ true)
      × (equals_given member.user_id context.actor_user_id ≡ true)
      × (is_active_membership member.membership_status ≡ true)
      × (is_active_user member.user_status ≡ true)
      × (member.membership_id ≡ actor.membership_id)
      × (member.user_id ≡ actor.user_id)
      × (member.person_id ≡ some actor.person_id)
unfolding exact_human_authority_actor
exact_actor context member actor h = elim (Option-cases member.person_id) [
  | inl e ↦ absurd (ground (arith, e, h))
  | inr (person, e) ↦ ground (arith, e, h)
]

pub ActsFor-of :
    (context : SecurityContext) (member : ActiveMembership) (actor : Actor)
    → exact_human_authority_actor context member ≡ some actor
    → equals_given actor.person_id context.actor_display_person_id ≡ true
    → ActsFor context member actor
ActsFor-of context member actor h shown =
    let (m, u, am, au, same_m, same_u, person) = exact_actor context member actor h in
    record {
      membership = (
        rw (← same_m) (equals_given-some member.membership_id context.actor_membership_id m),
        same_m,
      );
      user = (rw (← same_u) (equals_given-some member.user_id context.actor_user_id u), same_u);
      person = person;
      active = (active_membership member.membership_status am, active_user member.user_status au);
      displayed = equals_given-some actor.person_id context.actor_display_person_id shown;
    }

pub resource_type :
    (type : ResourceType) → same_resource type ResourceType.fact ≡ true → type ≡ ResourceType.fact
unfolding same_resource type_number
resource_type type h = ground (arith, h)

-- A row of the context's workspace with this identifier.
abbrev pub IsKey : SecurityContext → JsString → Key → Type 0
IsKey context id key =
    (key.tenant_id ≡ context.tenant_id) × (key.workspace_id ≡ context.workspace_id) × (key.id ≡ id)

pub IsKey-of :
    (context : SecurityContext) (id : JsString) (key : Key)
    → is_row context id key ≡ true
    → IsKey context id key
unfolding is_row in_workspace
IsKey-of context id key h =
    let (workspace, same_id) = and_true h in
    let (tenant, same_workspace) = and_true workspace in
    (
      (str_eq_iff key.tenant_id context.tenant_id).0 tenant,
      (str_eq_iff key.workspace_id context.workspace_id).0 same_workspace,
      (str_eq_iff key.id id).0 same_id,
    )

-- The space with this identifier in the workspace of a row; it is not archived.
pub record IsSpaceOf (database : Database) (key : Key) (space_id : JsString) (space : Space)
    : Type 0 where
  pub stored : Memᴰ space database.spaces
  pub workspace :
      (space.key.tenant_id ≡ key.tenant_id) × (space.key.workspace_id ≡ key.workspace_id)
  pub same_id : space.key.id ≡ space_id
  pub live : space.is_archived ≡ false

IsSpaceOf-joined :
    (database : Database) (key : Key) (space_id : JsString) (space : Space)
    → joined_space database key space_id ≡ some space
    → space.is_archived ≡ false
    → IsSpaceOf database key space_id space
unfolding joined_space
IsSpaceOf-joined database key space_id space joined open_ =
    let (tenant, rest) = and_true (find_where-true _ database.spaces joined) in
    let (workspace, same_id) = and_true rest in
    record {
      stored = find_where-Mem _ database.spaces joined;
      workspace = (
        (str_eq_iff space.key.tenant_id key.tenant_id).0 tenant,
        (str_eq_iff space.key.workspace_id key.workspace_id).0 workspace,
      );
      same_id = (str_eq_iff space.key.id space_id).0 same_id;
      live = open_;
    }

pub IsSpaceOf-of :
    (database : Database) (key : Key) (space_id : JsString) (space : Space)
    → unarchived (joined_space database key space_id) ≡ some space
    → IsSpaceOf database key space_id space
unfolding unarchived
IsSpaceOf-of database key space_id space h =
    elim (Option-cases (joined_space database key space_id)) [
      | inl e ↦ absurd (ground (arith, e, h))
      | inr (found, e) ↦
          let h1 = rw (e, unarchived) at h in
          let (open_, same) = provided-some (not found.is_archived) (some found) h1 in
          let same_space : found ≡ space = cc in
          IsSpaceOf-joined database key space_id space (rw same_space at e)
            (rw (← same_space) (ground (arith, open_)))
    ]
