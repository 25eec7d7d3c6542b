-- ===== src/Authorization/Spaces/Members.antt =====
-- packages/authorization/src/authorization-service.ts: the rules of `canReadSpaceResource` for a
-- member or viewer, without locks.
use mathlib.Core.Path.{subst}
use mathlib.Core.List.{Memᴰ}
use throughline.Prelude.{
  ◌≡◌, ◌≢◌, refl, sym, Bool, true, false, Option, none, some, List, [], ◌∷◌, JsString, units,
  length, if◌then◌else◌, ◌⊎◌, inl, inr, arith, Bool-cases, str_eq_iff, and_true,
}
use throughline.Authorization.Terms.{SecurityContext}
use throughline.Authorization.Tables.{Database, Grant, Space, Transaction, space_access}
use throughline.Authorization.Tables.Queries.{find_where-Mem, find_where-true, is_row, live_space}
use throughline.Authorization.Spaces.{
  SpaceRead, admin_read, direct_read, granted_read, inherited_read, is_workspace_root,
  load_space_access, readable_by,
}
use throughline.Authorization.Spaces.Locking.{lock_or_confirm_space_grant}
use throughline.Authorization.Spaces.Walk.{
  authority_path, climb, inherited_grants, is_restricted, number_from, parent_row, space_grants,
}
use throughline.Authorization.Spaces.Climb.{IsForest, WalkFrom, climb-WalkFrom, top, up}
use throughline.Authorization.Spaces.Grants.{
  Granted, direct, passed, space_grants-Granted, space_grants_ne,
}
use throughline.Authorization.Spaces.Inherited.{inherited_grants_ne, listed-Granted}

module _ (tx : Transaction) (context : SecurityContext) where
  pub admin_read-some :
      (o : Option Space) → (admin_read o).allowed ≡ true → (s : Space) × (o ≡ some s)
  unfolding admin_read
  admin_read-some none h = absurd (ground arith)
  admin_read-some (some s) h = (s, refl)

  direct_read_allowed :
      (gs : List Grant) (next : SpaceRead)
      → (direct_read tx context false gs next).allowed ≡ true
      → ((g : Grant) × (rest : List Grant) × (gs ≡ g ∷ rest)) ⊎ (next.allowed ≡ true)
  unfolding direct_read
  direct_read_allowed [] next h = inr h
  direct_read_allowed (g ∷ gs) next h = inl (g, gs, refl)

  direct_read_ne :
      (gs : List Grant) (next : SpaceRead)
      → gs ≢ [] ⊎ (next.allowed ≡ true)
      → (direct_read tx context false gs next).allowed ≡ true
  unfolding direct_read lock_or_confirm_space_grant
  direct_read_ne [] next (inl h) = absurd (h refl)
  direct_read_ne [] next (inr h) = h
  direct_read_ne (g ∷ gs) next h = refl

  inherited_read_allowed :
      (id : JsString) (restricted : Bool) (gs : List Grant)
      → (inherited_read tx context id false restricted gs).allowed ≡ true
      → (restricted ≡ false) × (g : Grant) × (rest : List Grant) × (gs ≡ g ∷ rest)
  unfolding inherited_read
  inherited_read_allowed id restricted [] h = absurd (ground arith)
  inherited_read_allowed id true (g ∷ gs) h = absurd (ground arith)
  inherited_read_allowed id false (g ∷ gs) h = (refl, g, gs, refl)

  inherited_read_ne :
      (id : JsString) (gs : List Grant)
      → gs ≢ []
      → (inherited_read tx context id false false gs).allowed ≡ true
  unfolding inherited_read
  inherited_read_ne id [] h = absurd (h refl)
  inherited_read_ne id (g ∷ gs) h = refl

  -- The rules for a member, where the target is in sight.
  unfoldable pub member_rules : Bool → Database → JsString → Space → SpaceRead
  member_rules lock_authority database id target =
      if is_workspace_root target.kind
      then readable_by (units "workspace_root_read") []
      else direct_read tx context lock_authority (space_grants context database id) (
          inherited_read tx context id lock_authority (is_restricted target) (
            inherited_grants context database
              (number_from 0 (climb context database (length database.spaces) target))))

  pub granted_read_at :
      (lock_authority : Bool) (id : JsString) (target : Space)
      → live_space context (tx space_access) id ≡ some target
      → granted_read tx context id lock_authority
        ≡ member_rules lock_authority (tx space_access) id target
  unfolding granted_read load_space_access authority_path member_rules
  granted_read_at lock_authority id target found = ground (arith, found)

module _ (context : SecurityContext) (database : Database) (id : JsString) where
  pub live_space-id : (s : Space) → live_space context database id ≡ some s → s.key.id ≡ id
  unfolding live_space is_row
  live_space-id s found =
      (str_eq_iff s.key.id id).0 (and_true (and_true (find_where-true _ database.spaces found)).0).1

  pub live_space-Mem :
      (s : Space) → live_space context database id ≡ some s → Memᴰ s database.spaces
  unfolding live_space
  live_space-Mem s found = find_where-Mem _ database.spaces found

  pub member_rules-Granted :
      (s : Space)
      → live_space context database id ≡ some s
      → (member_rules (λ _. database) context false database id s).allowed ≡ true
      → (is_workspace_root s.kind ≡ true) ⊎ Granted context database s
  unfolding member_rules
  member_rules-Granted s found h = elim (Bool-cases (is_workspace_root s.kind)) [
    | inl root ↦ inl root
    | inr below ↦
        elim (direct_read_allowed (λ _. database) context (space_grants context database id) _
          (rw below at h)) [
            | inl (g, rest, listed) ↦ inr (
                space_grants-Granted context database s (
                  subst (λ x. space_grants context database x ≡ g ∷ rest)
                    (sym (live_space-id s found)) listed))
            | inr next ↦
                (let (_, g, rest, listed) =
                    inherited_read_allowed (λ _. database) context id _ _ next in
                  inr (listed-Granted context database (length database.spaces) s listed))
          ]
  ]

  pub root_member_rules :
      (s : Space)
      → is_workspace_root s.kind ≡ true
      → (member_rules (λ _. database) context false database id s).allowed ≡ true
  unfolding member_rules readable_by
  root_member_rules s root = rw root refl

  walk_up :
      (s parent : Space) (path : List Space)
      → WalkFrom context database s path
      → parent_row context database s ≡ some parent
      → (above : List Space) × (path ≡ s ∷ above) × WalkFrom context database parent above
  walk_up s parent _ (top no_parent) e = absurd (ground arith)
  walk_up s parent _ (up {parent = p} {above = above} e' walk) e =
      let same : p ≡ parent = ground arith in
      (above, refl, subst (λ x. WalkFrom context database x above) same walk)

  listed_of-Granted :
      (s : Space)
      → IsForest context database
      → live_space context database id ≡ some s
      → Granted context database s
      → (space_grants context database id ≢ [])
        ⊎ ((is_restricted s ≡ false)
            × (inherited_grants context database
                  (number_from 0 (climb context database (length database.spaces) s))
                ≢ []))
  listed_of-Granted s forest found (direct g m same named) = inl (
      subst (λ x. space_grants context database x ≢ []) (live_space-id s found)
        (space_grants_ne context database s g m same named))
  listed_of-Granted s forest found (passed {parent = parent} inherits e granted) =
      let walk =
        climb-WalkFrom context database s (length database.spaces) forest (live_space-Mem s found)
          (omega arith) in
      let (above, whole, above_walk) = walk_up s parent _ walk e in
      inr (
        inherits,
        subst (λ path. inherited_grants context database (number_from 0 path) ≢ []) (sym whole)
            (inherited_grants_ne context database s parent above inherits e above_walk granted),
      )

  pub Granted-member_rules :
      (s : Space)
      → IsForest context database
      → live_space context database id ≡ some s
      → Granted context database s
      → (member_rules (λ _. database) context false database id s).allowed ≡ true
  unfolding member_rules readable_by
  Granted-member_rules s forest found granted = elim (Bool-cases (is_workspace_root s.kind)) [
    | inl root ↦ rw root refl
    | inr below ↦ rw below (elim (listed_of-Granted s forest found granted) [
      | inl listed ↦ direct_read_ne (λ _. database) context _ _ (inl listed)
      | inr (inherits, listed) ↦
          direct_read_ne (λ _. database) context _ _
            (inr (rw inherits (inherited_read_ne (λ _. database) context id _ listed)))
    ])
  ]
