-- ===== src/Authorization/Spaces/Confirmed.antt =====
-- packages/authorization/src/authorization-service.ts: what a decision under locks
-- (`options.lockAuthority`) has read again, where other transactions may commit between its queries.
use mathlib.Core.Path.{subst}
use mathlib.Core.List.{Memᴰ}
use throughline.Prelude.{
  ◌≡◌, refl, Bool, true, false, Option, none, some, List, [], ◌∷◌, JsString, units, map,
  Option-cases, ◌⊎◌, inl, inr, arith, Bool-cases, str_eq_iff, and_true,
}
use throughline.Authorization.Terms.{MembershipRole, SecurityContext, is_owner_or_admin}
use throughline.Authorization.Tables.{
  Grant, Space, Transaction, space_access, space_lock, path, path_again, path_lock, grant_lock,
}
use throughline.Authorization.Tables.Queries.{
  find_where-Mem, find_where-true, is_row, live_space, names_actor,
}
use throughline.Authorization.Spaces.{
  SpaceRead, can_read_space_resource, direct_read, granted_read, inherited_read, is_workspace_root,
  load_space_access, read_by_token, space_access_denied, space_not_found,
}
use throughline.Authorization.Spaces.Walk.{PathRow, load_inherited_authority_path, space_grants}
use throughline.Authorization.Spaces.Locking.{
  confirm_path, holds_all, lock_or_confirm_inherited_space_grant, lock_or_confirm_space_grant,
  locked_grant, locked_ids, same_path,
}
use throughline.Authorization.Spaces.Members.{granted_read_at, member_rules}
use throughline.Authorization.Spaces.Grants.{space_grants_head}

module _ (tx : Transaction) (context : SecurityContext) where
  -- The grant is in the table when its row is locked, on this space and for this actor.
  pub record LockedGrant (grant_id space_id : JsString) : Type 0 where
    pub grant : Grant
    pub listed : Memᴰ grant (tx grant_lock).access_relationships
    pub same_row : is_row context grant_id grant.key ≡ true
    pub on_space : grant.resource_id ≡ space_id
    pub of_actor : names_actor context grant.subject_type grant.subject_id ≡ true

  -- The path from the target to the grant's space is open when it is first read, all its spaces were
  -- found when their rows were locked, and it is the same path when it is read after that.
  pub record LockedPath (target_id space_id : JsString) : Type 0 where
    pub before : List PathRow
    pub after : List PathRow
    pub was_open : load_inherited_authority_path context (tx path) target_id space_id ≡ some before
    pub held :
        holds_all
          (locked_ids context (map (λ row. row.space.key.id) before) (tx path_lock).spaces)
          (map (λ row. row.space.key.id) before)
        ≡ true
    pub is_open :
        load_inherited_authority_path context (tx path_again) target_id space_id ≡ some after
    pub unchanged : same_path after before ≡ true

  pub data Confirmed (id : JsString) (role : MembershipRole) : Type 0 where
    by_role : is_owner_or_admin role ≡ true → Confirmed id role
    at_root :
        (target : Space)
        → live_space context (tx space_access) id ≡ some target
        → is_workspace_root target.kind ≡ true
        → Confirmed id role
    by_direct_grant : {grant_id : JsString} → LockedGrant grant_id id → Confirmed id role
    by_inherited_grant :
        {grant_id space_id : JsString}
        → LockedPath id space_id
        → LockedGrant grant_id space_id
        → Confirmed id role

  locked_grant-LockedGrant :
      (grant_id space_id : JsString) {grant : Grant}
      → locked_grant context (tx grant_lock) grant_id space_id ≡ some grant
      → LockedGrant grant_id space_id
  unfolding locked_grant
  locked_grant-LockedGrant grant_id space_id {grant} found =
      let rows = (tx grant_lock).access_relationships in
      let (row, others) = and_true (find_where-true _ rows found) in
      let (on_space, of_actor) = and_true others in
      record {
        grant = grant;
        listed = find_where-Mem _ rows found;
        same_row = row;
        on_space = (str_eq_iff grant.resource_id space_id).0 on_space;
        of_actor = of_actor;
      }

  lock_or_confirm-LockedGrant :
      (grant_id space_id : JsString) {token : JsString}
      → lock_or_confirm_space_grant tx context grant_id space_id true ≡ some token
      → LockedGrant grant_id space_id
  unfolding lock_or_confirm_space_grant
  lock_or_confirm-LockedGrant grant_id space_id found =
      elim (Option-cases (locked_grant context (tx grant_lock) grant_id space_id)) [
        | inl e ↦ absurd (ground (arith, e, found))
        | inr (grant, e) ↦ locked_grant-LockedGrant grant_id space_id e
      ]

  confirm_path-LockedPath :
      (id grant_id space_id : JsString) (expected : List PathRow) (token : JsString)
      → load_inherited_authority_path context (tx path) id space_id ≡ some expected
      → confirm_path tx context id grant_id space_id expected ≡ some token
      → LockedPath id space_id × LockedGrant grant_id space_id
  unfolding confirm_path
  confirm_path-LockedPath id grant_id space_id expected token was_open found =
      elim (Option-cases (load_inherited_authority_path context (tx path_again) id space_id)) [
        | inl e ↦ absurd (ground (arith, e, found))
        | inr (current, e) ↦ (
          record {
            before = expected;
            after = current;
            was_open = was_open;
            held = ground (arith, e, found);
            is_open = e;
            unchanged = ground (arith, e, found);
          },
          lock_or_confirm-LockedGrant grant_id space_id {token = token} (ground (arith, e, found)),
        )
      ]

  inherited-Confirmed :
      (id grant_id space_id : JsString) {token : JsString}
      → lock_or_confirm_inherited_space_grant tx context id grant_id space_id ≡ some token
      → LockedPath id space_id × LockedGrant grant_id space_id
  unfolding lock_or_confirm_inherited_space_grant
  inherited-Confirmed id grant_id space_id found =
      elim (Option-cases (load_inherited_authority_path context (tx path) id space_id)) [
        | inl e ↦ absurd (ground (arith, e, found))
        | inr (expected, e) ↦
            confirm_path-LockedPath id grant_id space_id expected _ e
              (rw (e, lock_or_confirm_inherited_space_grant) at found)
      ]

  -- A rule that gave a token, or the rule after it.
  token_or_next :
      (reason : JsString) (token : Option JsString) (next : SpaceRead)
      → (read_by_token reason token next).allowed ≡ true
      → ((t : JsString) × (token ≡ some t)) ⊎ (next.allowed ≡ true)
  unfolding read_by_token
  token_or_next reason none next h = inr h
  token_or_next reason (some t) next h = inl (t, refl)

  denied : {A : Type 0} → space_access_denied.allowed ≡ true → A
  unfolding space_access_denied
  denied h = absurd (ground (arith, h))

  inherited_read-Confirmed :
      (id : JsString) (role : MembershipRole) (restricted : Bool) (gs : List Grant)
      → (inherited_read tx context id true restricted gs).allowed ≡ true
      → Confirmed id role
  unfolding inherited_read
  inherited_read-Confirmed id role restricted [] h = denied h
  inherited_read-Confirmed id role true (g ∷ gs) h = denied h
  inherited_read-Confirmed id role false (g ∷ gs) h =
      elim (token_or_next (units "inherited_space_grant")
        (lock_or_confirm_inherited_space_grant tx context id g.key.id g.resource_id)
        space_access_denied h) [
          | inl (t, e) ↦
              (let (held, locked) = inherited-Confirmed id g.key.id g.resource_id e in
                by_inherited_grant held locked)
          | inr next ↦ denied next
        ]

  direct_read-Confirmed :
      (id : JsString) (role : MembershipRole) (gs : List Grant) (next : SpaceRead)
      → space_grants context (tx space_access) id ≡ gs
      → (next.allowed ≡ true → Confirmed id role)
      → (direct_read tx context true gs next).allowed ≡ true
      → Confirmed id role
  unfolding direct_read
  direct_read-Confirmed id role [] next listed after h = after h
  direct_read-Confirmed id role (g ∷ gs) next listed after h = elim (token_or_next _ _ next h) [
    | inl (t, e) ↦ by_direct_grant (
        subst (LockedGrant g.key.id) (space_grants_head context (tx space_access) id listed).1
          (lock_or_confirm-LockedGrant g.key.id g.resource_id e))
    | inr allowed ↦ after allowed
  ]

  member_rules-Confirmed :
      (id : JsString) (role : MembershipRole) (target : Space)
      → live_space context (tx space_access) id ≡ some target
      → (member_rules tx context true (tx space_access) id target).allowed ≡ true
      → Confirmed id role
  unfolding member_rules
  member_rules-Confirmed id role target found h =
      elim (Bool-cases (is_workspace_root target.kind)) [
        | inl root ↦ at_root target found root
        | inr below ↦
            direct_read-Confirmed id role (space_grants context (tx space_access) id) _ refl
              (inherited_read-Confirmed id role _ _) (rw below at h)
      ]

  granted_read-Confirmed :
      (id : JsString) (role : MembershipRole)
      → (granted_read tx context id true).allowed ≡ true
      → Confirmed id role
  unfolding granted_read load_space_access space_not_found
  granted_read-Confirmed id role h = elim (Option-cases (live_space context (tx space_access) id)) [
    | inl e ↦ absurd (ground (arith, e, h))
    | inr (target, found) ↦
        member_rules-Confirmed id role target found
          (rw (granted_read_at tx context true id target found) at h)
  ]

-- A decision under locks that lets the actor read a space had the space in sight when it locked its
-- row, whatever other transactions commit between its queries; and the actor is an owner or admin, or
-- the space is the root, or a grant of the actor was in its table when its row was locked. That grant
-- is on the space itself, or on an ancestor that all spaces up to it were locked for, by a path that
-- was open and the same before and after the locks.
pub can_read-Confirmed :
    (tx : Transaction) (context : SecurityContext) (id : JsString) (role : MembershipRole)
    → (can_read_space_resource tx context id role true).allowed ≡ true
    → ((locked : Space) × (live_space context (tx space_lock) id ≡ some locked))
      × Confirmed tx context id role
unfolding can_read_space_resource space_not_found
can_read-Confirmed tx context id role h =
    elim (Option-cases (live_space context (tx space_lock) id)) [
      | inl e ↦ absurd (ground (arith, e, h))
      | inr (locked, e) ↦ (
        (locked, e),
        elim (Bool-cases (is_owner_or_admin role)) [
          | inl admin ↦ by_role admin
          | inr member ↦ granted_read-Confirmed tx context id role (ground (arith, e, member, h))
        ],
      )
    ]
