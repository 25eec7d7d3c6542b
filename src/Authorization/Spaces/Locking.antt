-- ===== src/Authorization/Spaces/Locking.antt =====
-- packages/authorization/src/authorization-service.ts: the re-reading of a grant and of the spaces it
-- is inherited through under row locks (`lockOrConfirmSpaceGrant`, `lockOrConfirmInheritedSpaceGrant`).
use throughline.Prelude.{
  Bool, true, false, ◌&&◌, not, Option, none, some, List, [], ◌∷◌, ◌++◌, map, JsString, units,
  str_eq, includes, length, ◌==◌, if◌then◌else◌,
}
use throughline.Authorization.Terms.{SecurityContext}
use throughline.Authorization.Tables.{
  Database, Grant, InheritanceMode, Space, Transaction, inherit, restricted, path, path_lock,
  path_again, grant_lock,
}
use throughline.Authorization.Tables.Queries.{find_where, in_workspace, is_row, names_actor}
use throughline.Authorization.Spaces.Walk.{PathRow, load_inherited_authority_path}

unfoldable pub space_grant_token : JsString → JsString → JsString
space_grant_token grant_id resource_id =
    units "space_grant:" ++ (grant_id ++ (units ":" ++ resource_id))

-- The row that the query locks.
unfoldable pub locked_grant : SecurityContext → Database → JsString → JsString → Option Grant
locked_grant context database grant_id resource_id =
    find_where
      (λ grant.
        is_row context grant_id grant.key
        && (str_eq grant.resource_id resource_id
            && names_actor context grant.subject_type grant.subject_id))
      database.access_relationships

unfoldable pub lock_or_confirm_space_grant :
    Transaction → SecurityContext → JsString → JsString → Bool → Option JsString
unfolding space_grant_token locked_grant
lock_or_confirm_space_grant tx context grant_id resource_id lock_authority =
    if not lock_authority
    then some (space_grant_token grant_id resource_id)
    else elim (locked_grant context (tx grant_lock) grant_id resource_id) [
      | none ↦ none
      | some grant ↦ some (space_grant_token grant.key.id grant.resource_id)
    ]

-- `space_row.id = ANY($3)`
unfoldable pub locked_ids : SecurityContext → List JsString → List Space → List JsString
locked_ids context ids [] = []
locked_ids context ids (space ∷ spaces) =
    let rest = locked_ids context ids spaces in
    if in_workspace context space.key.tenant_id space.key.workspace_id
      && (includes ids space.key.id && not space.is_archived)
    then space.key.id ∷ rest
    else rest

-- `new Set(ids)`
unfoldable pub distinct_ids : List JsString → List JsString
distinct_ids [] = []
distinct_ids (id ∷ ids) = let rest = distinct_ids ids in if includes ids id then rest else id ∷ rest

unfoldable pub same_option : Option JsString → Option JsString → Bool
same_option none none = true
same_option (some a) (some b) = str_eq a b
same_option _ _ = false

unfoldable pub same_mode : InheritanceMode → InheritanceMode → Bool
same_mode inherit inherit = true
same_mode restricted restricted = true
same_mode _ _ = false

unfoldable pub same_path_row : PathRow → PathRow → Bool
unfolding same_option same_mode
same_path_row row expected =
    str_eq row.space.key.id expected.space.key.id
    && (same_option row.space.parent_space_id expected.space.parent_space_id
        && (same_mode row.space.inheritance_mode expected.space.inheritance_mode
            && row.depth == expected.depth))

-- The lengths and the rows of the two readings agree.
unfoldable pub same_path : List PathRow → List PathRow → Bool
unfolding same_path_row
same_path [] [] = true
same_path (row ∷ rows) (expected ∷ others) = same_path_row row expected && same_path rows others
same_path _ _ = false

unfoldable pub holds_all : List JsString → List JsString → Bool
unfolding distinct_ids
holds_all locked expected =
    length locked == length expected && length (distinct_ids locked) == length expected

unfoldable pub confirm_path :
    Transaction → SecurityContext → JsString → JsString → JsString → List PathRow → Option JsString
unfolding holds_all locked_ids same_path lock_or_confirm_space_grant
confirm_path tx context target_space_id grant_id grant_space_id expected =
    let ids = map (λ row. row.space.key.id) expected in
    if holds_all (locked_ids context ids (tx path_lock).spaces) ids
    then elim (load_inherited_authority_path context (tx path_again) target_space_id
        grant_space_id) [
          | none ↦ none
          | some current ↦
              if same_path current expected
              then lock_or_confirm_space_grant tx context grant_id grant_space_id true
              else none
        ]
    else none

unfoldable pub lock_or_confirm_inherited_space_grant :
    Transaction → SecurityContext → JsString → JsString → JsString → Option JsString
unfolding confirm_path
lock_or_confirm_inherited_space_grant tx context target_space_id grant_id grant_space_id =
    elim (load_inherited_authority_path context (tx path) target_space_id grant_space_id) [
      | none ↦ none
      | some expected ↦ confirm_path tx context target_space_id grant_id grant_space_id expected
    ]
