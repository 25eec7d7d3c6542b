-- ===== src/Authorization/Spaces/Tests.antt =====
-- packages/authorization/src/authorization-service.ts: reading the spaces of a small workspace.
use mathlib.Core.List.{Memᴰ}
use throughline.Prelude.{
  ℕ, ◌<◌, ◌≡◌, ◌↔◌, refl, true, false, none, some, JsString, units, arith, str_eq, includes, ap,
  if◌then◌else◌,
}
use throughline.Authorization.Terms.{MembershipRole, equals_given, is_owner_or_admin}
use throughline.Authorization.Tables.{Space}
use throughline.Authorization.Tables.Queries.{
  find_where, grants_by_id, is_row, live_space, names_actor,
}
use throughline.Authorization.Spaces.Locking.{lock_or_confirm_inherited_space_grant}
use throughline.Authorization.Spaces.{can_read_space_resource}
use throughline.Authorization.Spaces.Walk.{
  authority_path, climb, inherited_grants, load_inherited_authority_path, parent_row, space_grants,
}
use throughline.Authorization.Spaces.Climb.{IsForest, WalkFrom, climb-WalkFrom}
use throughline.Authorization.Spaces.Confirmed.{Confirmed, can_read-Confirmed}
use throughline.Authorization.Spaces.Laws.{Readable, can_read-Readable}
use throughline.Authorization.Examples.{context, database, department, root, team}

-- The team inherits the grant on the department, and a viewer without a grant reads the root only.
team_readable :
    (can_read_space_resource
      (λ _. database)
      context
      (units "team")
      MembershipRole.member
      true).allowed
    ≡ true
unfolding can_read_space_resource live_space find_where is_row str_eq is_owner_or_admin space_grants
    grants_by_id inherited_grants authority_path parent_row names_actor equals_given
    lock_or_confirm_inherited_space_grant load_inherited_authority_path includes
team_readable = refl

unknown_space :
    (can_read_space_resource (λ _. database) context (units "x") MembershipRole.owner false).allowed
    ≡ false
unfolding can_read_space_resource is_owner_or_admin live_space find_where is_row str_eq
unknown_space = refl

abbrev depth : JsString → ℕ
depth id = if str_eq id (units "root") then 0 else if str_eq id (units "dept") then 1 else 2

root_top : parent_row context database root ≡ none
unfolding parent_row
root_top = refl

department_up : parent_row context database department ≡ some root
unfolding parent_row live_space find_where is_row str_eq
department_up = refl

team_up : parent_row context database team ≡ some department
unfolding parent_row live_space find_where is_row str_eq
team_up = refl

depths :
    (s p above below : Space)
    → s ≡ below
    → p ≡ above
    → depth above.key.id < depth below.key.id
    → depth p.key.id < depth s.key.id
depths s p above below e e' lower =
    let a : depth s.key.id ≡ depth below.key.id = ap (λ (r : Space). depth r.key.id) e in
    let b : depth p.key.id ≡ depth above.key.id = ap (λ (r : Space). depth r.key.id) e' in
    omega (arith, a, b)

falls :
    (s parent : Space)
    → Memᴰ s database.spaces
    → parent_row context database s ≡ some parent
    → depth parent.key.id < depth s.key.id
unfolding str_eq
falls s parent (Memᴰ.head same) e =
    absurd (ground (arith, ap (parent_row context database) same, e, root_top))
falls s parent (Memᴰ.tail (Memᴰ.head same)) e =
    depths s parent root department same
      (ground (arith, ap (parent_row context database) same, e, department_up)) (omega arith)
falls s parent (Memᴰ.tail (Memᴰ.tail (Memᴰ.head same))) e =
    depths s parent department team same
      (ground (arith, ap (parent_row context database) same, e, team_up)) (omega arith)
falls s parent (Memᴰ.tail (Memᴰ.tail (Memᴰ.tail m))) e = elim m [ ]

forest : IsForest context database
forest = record { height = depth; falls = falls }

can_read-Readable_example :
    ((can_read_space_resource
        (λ _. database)
        context
        (units "team")
        MembershipRole.member
        false).allowed
      ≡ true)
    ↔ ((s : Space) × (live_space context database (units "team") ≡ some s)
        × Readable context database MembershipRole.member s)
can_read-Readable_example =
    can_read-Readable context database (units "team") MembershipRole.member forest

can_read-Confirmed_example :
    ((locked : Space) × (live_space context database (units "team") ≡ some locked))
    × Confirmed (λ _. database) context (units "team") MembershipRole.member
can_read-Confirmed_example =
    can_read-Confirmed (λ _. database) context (units "team") MembershipRole.member team_readable

climb-WalkFrom_example : WalkFrom context database team (climb context database 3 team)
climb-WalkFrom_example =
    climb-WalkFrom context database team 3 forest (Memᴰ.tail (Memᴰ.tail (Memᴰ.head refl)))
      (omega arith)
