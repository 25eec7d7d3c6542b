-- ===== src/Authorization/Tables/Queries.antt =====
-- What the queries share: the columns compared with the context, joins, and the first row of a
-- result.
use mathlib.Core.List.{Memᴰ}
use throughline.Prelude.{
  Bool-cases, inl, inr, ◌≡◌, refl, Bool, true, false, ◌&&◌, not, Option, none, some, List, [], ◌∷◌,
  JsString, str_eq, if◌then◌else◌, max, ℕ, zero, suc, inl, inr, str_leb, arith, Option-cases,
}
use throughline.Core.AccessClass.{AccessClass, public, workspace, restricted, confidential, rank}
use throughline.Authorization.Terms.{SecurityContext, equals_given}
use throughline.Authorization.Tables.{Database, Key, Space, Grant, GrantSubject, user, membership}

module _ {ℓ κ} {A : Type ℓ} {B : Type κ} where
  -- The first value that a row gives: a query with LIMIT 1 over a join.
  unfoldable pub pick : (A → Option B) → List A → Option B
  pick value [] = none
  pick value (row ∷ rows) = elim (value row) [ some b ↦ some b | none ↦ pick value rows ]

  pub pick_value :
      (value : A → Option B) (rows : List A) {b : B}
      → pick value rows ≡ some b
      → (row : A) × (value row ≡ some b)
  unfolding pick
  pick_value value [] found = cc
  pick_value value (row ∷ rows) {b} found = elim (Option-cases (value row)) [
    | inl e ↦ pick_value value rows (rw (e, pick) at found)
    | inr (b', e) ↦ (row, ground arith)
  ]

  -- The same with the row's place in the table.
  pub pick_row :
      (value : A → Option B) (rows : List A) {b : B}
      → pick value rows ≡ some b
      → (row : A) × Memᴰ row rows × (value row ≡ some b)
  unfolding pick
  pick_row value [] found = cc
  pick_row value (row ∷ rows) {b} found = elim (Option-cases (value row)) [
    | inl e ↦ let (r, m, v) = pick_row value rows (rw (e, pick) at found) in (r, Memᴰ.tail m, v)
    | inr (b', e) ↦ (row, Memᴰ.head refl, ground arith)
  ]

-- `WHERE test` on a row's value.
unfoldable pub provided {κ} : {B : Type κ} → Bool → Option B → Option B
provided test value = if test then value else none

pub provided-some {κ} :
    {B : Type κ} {b : B} (test : Bool) (value : Option B)
    → provided test value ≡ some b
    → (test ≡ true) × (value ≡ some b)
unfolding provided
provided-some true value h = (refl, h)
provided-some false value h = cc

module _ {ℓ} {A : Type ℓ} where
  -- The first row that meets a test.
  unfoldable pub find_where : (A → Bool) → List A → Option A
  unfolding pick provided
  find_where test = pick (λ row. provided (test row) (some row))

  pub find_where-true :
      (test : A → Bool) (rows : List A) {found : A}
      → find_where test rows ≡ some found
      → test found ≡ true
  unfolding find_where
  find_where-true test rows h =
      let (row, at_row) = pick_value (λ row. provided (test row) (some row)) rows h in
      let (met, same) = provided-some (test row) (some row) at_row in ground (arith, met, same)

module _ {ℓ} {A : Type ℓ} (test : A → Bool) where
  pub find_where-Mem :
      (rows : List A) {found : A} → find_where test rows ≡ some found → Memᴰ found rows
  unfolding find_where
  find_where-Mem [] h = cc
  find_where-Mem (row ∷ rows) {found} h = elim (Bool-cases (test row)) [
    | inl met ↦ Memᴰ.head (ground (arith, h, met))
    | inr missed ↦ Memᴰ.tail (find_where-Mem rows (ground (arith, h, missed)))
  ]

-- `tenant_id = $1 AND workspace_id = $2`
unfoldable pub in_workspace : SecurityContext → JsString → JsString → Bool
in_workspace context tenant_id workspace_id =
    str_eq tenant_id context.tenant_id && str_eq workspace_id context.workspace_id

unfoldable pub is_row : SecurityContext → JsString → Key → Bool
unfolding in_workspace
is_row context id key = in_workspace context key.tenant_id key.workspace_id && str_eq key.id id

-- `JOIN access.spaces space ON ...` from a row with this key and space.
unfoldable pub joined_space : Database → Key → JsString → Option Space
joined_space database key space_id =
    find_where
      (λ space.
        str_eq space.key.tenant_id key.tenant_id
        && (str_eq space.key.workspace_id key.workspace_id && str_eq space.key.id space_id))
      database.spaces

-- A space of the workspace that is not archived.
unfoldable pub live_space : SecurityContext → Database → JsString → Option Space
live_space context database space_id =
    find_where (λ space. is_row context space_id space.key && not space.is_archived) database.spaces

-- `CASE ... WHEN 0 THEN 'public' ... ELSE 'confidential' END`
unfoldable pub class_at : ℕ → AccessClass
class_at zero = public
class_at (suc zero) = workspace
class_at (suc (suc zero)) = restricted
class_at (suc (suc (suc n))) = confidential

-- The CASE over GREATEST of two classes' numbers.
unfoldable pub greatest_class : AccessClass → AccessClass → AccessClass
unfolding class_at rank
greatest_class a b = class_at (max (rank a) (rank b))

-- `subject_type = 'membership' AND subject_id = $4 OR subject_type = 'user' AND subject_id = $5`
unfoldable pub names_actor : SecurityContext → GrantSubject → JsString → Bool
names_actor context membership subject_id = equals_given subject_id context.actor_membership_id
names_actor context user subject_id = equals_given subject_id context.actor_user_id
names_actor context _ subject_id = false

-- `ORDER BY id`
unfoldable pub insert_grant : Grant → List Grant → List Grant
insert_grant grant [] = grant ∷ []
insert_grant grant (g ∷ gs) =
    if str_leb grant.key.id g.key.id then grant ∷ g ∷ gs else g ∷ insert_grant grant gs

unfoldable pub grants_by_id : (Grant → Bool) → List Grant → List Grant
unfolding insert_grant
grants_by_id test [] = []
grants_by_id test (g ∷ gs) =
    let rest = grants_by_id test gs in if test g then insert_grant g rest else rest
