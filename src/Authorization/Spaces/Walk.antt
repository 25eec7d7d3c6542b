-- ===== src/Authorization/Spaces/Walk.antt =====
-- packages/authorization/src/authorization-service.ts: the recursive queries over the parents of a
-- space, with the grants that an ancestor passes down (`loadInheritedAuthorityPath` and the inherited
-- grants of `canReadSpaceResource`). The ids of a table are distinct, so a depth has one row.
use throughline.Prelude.{
  ℕ, zero, suc, Bool, true, false, ◌&&◌, not, Option, none, some, List, [], ◌∷◌, ◌++◌, JsString,
  str_eq, any, length, take, ltb, if◌then◌else◌,
}
use throughline.Authorization.Terms.{SecurityContext}
use throughline.Authorization.Tables.{Database, Grant, InheritanceMode, Space, inherit, restricted}
use throughline.Authorization.Tables.Queries.{grants_by_id, live_space, names_actor}

pub record PathRow : Type 0 where
  pub space : Space
  pub depth : ℕ

unfoldable pub is_restricted_mode : InheritanceMode → Bool
is_restricted_mode inherit = false
is_restricted_mode restricted = true

unfoldable pub is_restricted : Space → Bool
unfolding is_restricted_mode
is_restricted space = is_restricted_mode space.inheritance_mode

-- The row that `parent.id = authority_path.parent_space_id` joins.
unfoldable pub parent_row : SecurityContext → Database → Space → Option Space
parent_row context database space = elim space.parent_space_id [
  | none ↦ none
  | some parent ↦ live_space context database parent
]

-- The recursive term of the query, `fuel` times.
unfoldable pub climb : SecurityContext → Database → ℕ → Space → List Space
climb context database zero space = space ∷ []
climb context database (suc fuel) space = space ∷ (elim (parent_row context database space) [
  | none ↦ []
  | some parent ↦ climb context database fuel parent
])

unfoldable pub number_from : ℕ → List Space → List PathRow
number_from depth [] = []
number_from depth (space ∷ spaces) =
    (record { space = space; depth = depth }) ∷ number_from (suc depth) spaces

unfoldable pub authority_path : SecurityContext → Database → JsString → List PathRow
unfolding climb number_from
authority_path context database space_id = elim (live_space context database space_id) [
  | none ↦ []
  | some target ↦ number_from 0 (climb context database (length database.spaces) target)
]

-- `a.depth > 0 AND NOT EXISTS (... boundary.depth < a.depth AND boundary is restricted)`
unfoldable pub passes_down : List PathRow → PathRow → Bool
unfolding is_restricted
passes_down path row =
    ltb 0 row.depth
    && not (any (λ boundary. ltb boundary.depth row.depth && is_restricted boundary.space) path)

unfoldable pub space_grants : SecurityContext → Database → JsString → List Grant
space_grants context database space_id =
    grants_by_id
      (λ grant.
        str_eq grant.resource_id space_id
        && names_actor context grant.subject_type grant.subject_id)
      database.access_relationships

-- `ORDER BY a.depth, ar.id`
unfoldable pub grants_along : SecurityContext → Database → List PathRow → List PathRow → List Grant
unfolding passes_down space_grants
grants_along context database path [] = []
grants_along context database path (row ∷ rows) =
    let rest = grants_along context database path rows in
    if passes_down path row then space_grants context database row.space.key.id ++ rest else rest

unfoldable pub inherited_grants : SecurityContext → Database → List PathRow → List Grant
unfolding grants_along
inherited_grants context database path = grants_along context database path path

unfoldable pub find_index : JsString → List PathRow → Option ℕ
find_index id [] = none
find_index id (row ∷ rows) =
    let later = find_index id rows in
    if str_eq row.space.key.id id
    then some 0
    else elim later [ none ↦ none | some i ↦ some (suc i) ]

-- The part of the path up to the grant's space, where it lies above the target and no space below it
-- is restricted.
unfoldable pub open_prefix : List PathRow → Option ℕ → Option (List PathRow)
unfolding is_restricted
open_prefix rows none = none
open_prefix rows (some zero) = none
open_prefix rows (some (suc n)) =
    if any (λ row. is_restricted row.space) (take (suc n) rows)
    then none
    else some (take (suc (suc n)) rows)

unfoldable pub load_inherited_authority_path :
    SecurityContext → Database → JsString → JsString → Option (List PathRow)
unfolding authority_path find_index open_prefix
load_inherited_authority_path context database target_space_id grant_space_id =
    let rows = authority_path context database target_space_id in
    open_prefix rows (find_index grant_space_id rows)
