-- ===== src/Authorization/Spaces/Laws.antt =====
-- packages/authorization/src/authorization-service.ts: `canReadSpaceResource` admits those whom the
-- rules for reading a space admit, and no others.
use throughline.Prelude.{
  ◌≡◌, ◌↔◌, refl, true, false, none, some, JsString, Option-cases, inl, inr, arith, Bool-cases,
}
use throughline.Authorization.Terms.{MembershipRole, SecurityContext, is_owner_or_admin}
use throughline.Authorization.Tables.{Database, Space}
use throughline.Authorization.Tables.Queries.{live_space}
use throughline.Authorization.Spaces.{
  admin_read, can_read_space_resource, granted_read, is_workspace_root, load_space_access,
  readable_by, space_not_found,
}
use throughline.Authorization.Spaces.Climb.{IsForest}
use throughline.Authorization.Spaces.Grants.{Granted}
use throughline.Authorization.Spaces.Members.{
  Granted-member_rules, admin_read-some, granted_read_at, member_rules, member_rules-Granted,
  root_member_rules,
}

-- The rules: an owner or admin of the workspace, the root of the workspace, or a grant that reaches
-- the space.
pub data Readable (context : SecurityContext) (database : Database) (role : MembershipRole)
    (s : Space) : Type 0 where
  by_role : is_owner_or_admin role ≡ true → Readable context database role s
  at_root : is_workspace_root s.kind ≡ true → Readable context database role s
  by_grant : Granted context database s → Readable context database role s

module _ (context : SecurityContext) (database : Database) (id : JsString)
    (role : MembershipRole) where
  abbrev Admitted : Type 0
  Admitted =
      (s : Space) × (live_space context database id ≡ some s) × Readable context database role s

  as_admin :
      is_owner_or_admin role ≡ true
      → can_read_space_resource (λ _. database) context id role false
        ≡ admin_read (live_space context database id)
  unfolding can_read_space_resource
  as_admin e = rw e refl

  as_member :
      is_owner_or_admin role ≡ false
      → can_read_space_resource (λ _. database) context id role false
        ≡ granted_read (λ _. database) context id false
  unfolding can_read_space_resource
  as_member e = rw e refl

  hidden :
      live_space context database id ≡ none
      → (granted_read (λ _. database) context id false).allowed ≡ true
      → ⊥
  unfolding granted_read load_space_access space_not_found
  hidden e h = ground (arith, e, h)

  Admitted-of :
      (can_read_space_resource (λ _. database) context id role false).allowed ≡ true → Admitted
  Admitted-of h = elim (Bool-cases (is_owner_or_admin role)) [
    | inl admin ↦
        (let (s, found) = admin_read-some (λ _. database) context _ (rw (as_admin admin) at h) in
          (s, found, by_role admin))
    | inr member ↦ elim (Option-cases (live_space context database id)) [
      | inl e ↦ absurd (hidden e (rw (as_member member) at h))
      | inr (s, found) ↦
          elim (member_rules-Granted context database id s found (
            rw (as_member member, granted_read_at (λ _. database) context false id s found) at h)) [
              | inl root ↦ (s, found, at_root root)
              | inr granted ↦ (s, found, by_grant granted)
            ]
    ]
  ]

  allowed-of :
      IsForest context database
      → Admitted
      → (can_read_space_resource (λ _. database) context id role false).allowed ≡ true
  unfolding admin_read readable_by
  allowed-of forest (s, found, rule) = elim (Bool-cases (is_owner_or_admin role)) [
    | inl admin ↦ rw (as_admin admin, found)
    | inr member ↦
        rw (as_member member, granted_read_at (λ _. database) context false id s found)
          (by_rule member s found rule)
  ]
    where
      by_rule :
          is_owner_or_admin role ≡ false
          → (s : Space) → live_space context database id ≡ some s
          → Readable context database role s
          → (member_rules (λ _. database) context false database id s).allowed ≡ true
      by_rule member s found (by_role admin) = absurd (ground arith)
      by_rule member s found (at_root root) = root_member_rules context database id s root
      by_rule member s found (by_grant granted) =
          Granted-member_rules context database id s forest found granted

-- Over a database that does not change meanwhile, and in which no space is its own ancestor, a
-- decision without locks lets the actor read a space exactly if the space is in sight (in the
-- workspace and not archived) and one of the rules admits the actor: the role, the root of the
-- workspace, or a grant on the space or on an ancestor with no restricted space from the space up to
-- that ancestor.
pub can_read-Readable :
    (context : SecurityContext) (database : Database) (id : JsString) (role : MembershipRole)
    → IsForest context database
    → ((can_read_space_resource (λ _. database) context id role false).allowed ≡ true)
      ↔ ((s : Space) × (live_space context database id ≡ some s) × Readable context database role s)
can_read-Readable context database id role forest =
    (Admitted-of context database id role, allowed-of context database id role forest)
