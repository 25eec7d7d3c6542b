-- ===== src/Db/ProductOutbox/Selection.antt =====
-- The row that `claimNext` picks (product-outbox-repository.ts).
use mathlib.Core.List.{Memᴰ}
use throughline.Prelude.{
  ℕ, ◌≤◌, ◌≡◌, ◌⊎◌, inl, inr, Bool, true, false, some, [], ◌∷◌, arith, Option-cases, JsString,
  str_eq_iff,
}
use throughline.Db.ProductOutbox.{Scope, Row, Table, in_scope}
use throughline.Db.ProductOutbox.Claim.{is_eligible, is_chosen, first_eligible, to_milliseconds}
use throughline.Db.ProductOutbox.Frame.{SameKey}

first_eligible_step :
    (scope : Scope) (at : ℕ) (locked : JsString → Bool) (row : Row) (rows : Table) (chosen : Row)
    → first_eligible scope at locked (row ∷ rows) ≡ some chosen
    → ((chosen ≡ row)
        × ((is_eligible scope at chosen ≡ true) × (locked chosen.columns.event_id ≡ false)))
      ⊎ (first_eligible scope at locked rows ≡ some chosen)
unfolding first_eligible
first_eligible_step scope at locked row rows chosen h =
    elim (Option-cases (first_eligible scope at locked rows)) [
      | inl nothing ↦ ground (arith, nothing)
      | inr (other, found) ↦ ground (arith, found)
    ]

pub first_eligible_sound :
    (scope : Scope) (at : ℕ) (locked : JsString → Bool) (table : Table) (chosen : Row)
    → first_eligible scope at locked table ≡ some chosen
    → Memᴰ chosen table
      × (is_eligible scope at chosen ≡ true)
      × (locked chosen.columns.event_id ≡ false)
first_eligible_sound scope at locked [] chosen h = unfold first_eligible in cc
first_eligible_sound scope at locked (row ∷ rows) chosen h =
    elim (first_eligible_step scope at locked row rows chosen h) [
      | inl (same, rest) ↦ (Memᴰ.head same, rest.0, rest.1)
      | inr later ↦
          let (m, e, l) = first_eligible_sound scope at locked rows chosen later in
          (Memᴰ.tail m, e, l)
    ]

pub to_milliseconds_le : (now : ℕ) → to_milliseconds now ≤ now
unfolding to_milliseconds
to_milliseconds_le now = omega arith

pub is_chosen-SameKey :
    (scope : Scope) (at : ℕ) (chosen row : Row)
    → is_eligible scope at chosen ≡ true
    → is_chosen scope chosen row ≡ true
    → SameKey row chosen
unfolding is_eligible is_chosen in_scope
is_chosen-SameKey scope at chosen row e c = ground (
  arith,
  str_eq_iff row.columns.event_id chosen.columns.event_id,
  str_eq_iff row.columns.tenant_id scope.tenant_id,
  str_eq_iff row.columns.workspace_id scope.workspace_id,
  str_eq_iff row.columns.space_id scope.space_id,
  str_eq_iff chosen.columns.tenant_id scope.tenant_id,
  str_eq_iff chosen.columns.workspace_id scope.workspace_id,
  str_eq_iff chosen.columns.space_id scope.space_id,
)
