-- ===== src/Db/ProductOutbox/Frame.antt =====
-- Tables that change row by row, and tables whose rows have distinct keys
-- (product-outbox-repository.ts against 0003_b1_0_canonical_product_outbox.sql).
use mathlib.Core.List.{Memᴰ}
use throughline.Prelude.{
  ℕ, ◌≡◌, refl, sym, ap, ◌∙◌, ◌⊎◌, inl, inr, Bool, true, [], ◌∷◌, All, All-Mem, Bool-cases,
}
use throughline.Db.ProductOutbox.{Row, Table, update_where}
use throughline.Db.ProductOutbox.Contract.{row_checks, transition_allowed}

-- The columns that no update writes.
abbrev pub SameEnvelope : Row → Row → Type 0
SameEnvelope old new =
    (new.columns ≡ old.columns)
    × (new.relay_service_principal_id ≡ old.relay_service_principal_id)
    × (new.policy_version_id ≡ old.policy_version_id)
    × (new.created_at ≡ old.created_at)

-- An update that the database accepts: the trigger lets it pass, the constraints hold of the new
-- row, and the envelope is unchanged.
pub record RowStep (now : ℕ) (old new : Row) : Type 0 where
  pub allowed : transition_allowed now old new ≡ true
  pub checked : row_checks new ≡ true
  pub envelope : SameEnvelope old new

-- Row by row, the new table keeps the old row or takes an accepted step from it.
abbrev pub Evolves : ℕ → Table → Table → Type 0
Evolves now [] [] = Unit
Evolves now [] (new ∷ news) = ⊥
Evolves now (old ∷ olds) [] = ⊥
Evolves now (old ∷ olds) (new ∷ news) = ((new ≡ old) ⊎ RowStep now old new) × Evolves now olds news

abbrev pub IsChecked : Table → Type 0
IsChecked table = All (λ row. row_checks row ≡ true) table

pub Evolves-refl : (now : ℕ) (table : Table) → Evolves now table table
Evolves-refl now [] = tt
Evolves-refl now (row ∷ rows) = (inl refl, Evolves-refl now rows)

pub Evolves-IsChecked :
    (now : ℕ) (old new : Table) → Evolves now old new → IsChecked old → IsChecked new
Evolves-IsChecked now [] [] e c = tt
Evolves-IsChecked now [] (new ∷ news) e c = absurd e
Evolves-IsChecked now (old ∷ olds) [] e c = absurd e
Evolves-IsChecked now (old ∷ olds) (new ∷ news) (inl same, e) (c, cs) =
    (rw same c, Evolves-IsChecked now olds news e cs)
Evolves-IsChecked now (old ∷ olds) (new ∷ news) (inr step, e) (c, cs) =
    (step.checked, Evolves-IsChecked now olds news e cs)

-- An update of the rows that pass a test, each by an accepted step.
pub update_where-Evolves :
    (now : ℕ) (test : Row → Bool) (set : Row → Row) (table : Table)
    → ((row : Row) → Memᴰ row table → test row ≡ true → RowStep now row (set row))
    → Evolves now table (update_where test set table)
unfolding update_where
update_where-Evolves now test set [] step = tt
update_where-Evolves now test set (row ∷ rows) step =
    let rest = update_where-Evolves now test set rows (λ r m. step r (Memᴰ.tail m)) in
    elim (Bool-cases (test row)) [
      | inl passed ↦ rw passed (inr (step row (Memᴰ.head refl) passed), rest)
      | inr failed ↦ rw failed (inl refl, rest)
    ]

-- The columns of product_outbox_events_scope_id_unique.
abbrev pub SameKey : Row → Row → Type 0
SameKey a b =
    (a.columns.event_id ≡ b.columns.event_id)
    × (a.columns.tenant_id ≡ b.columns.tenant_id)
    × (a.columns.workspace_id ≡ b.columns.workspace_id)
    × (a.columns.space_id ≡ b.columns.space_id)

abbrev pub HasUniqueKeys : Table → Type 0
HasUniqueKeys [] = Unit
HasUniqueKeys (row ∷ rows) = All (λ other. ¬ (SameKey row other)) rows × HasUniqueKeys rows

pub HasUniqueKeys-eq :
    (table : Table) {a b : Row}
    → HasUniqueKeys table
    → Memᴰ a table
    → Memᴰ b table
    → SameKey a b
    → a ≡ b
HasUniqueKeys-eq [] u m n s = elim m [ ]
HasUniqueKeys-eq (row ∷ rows) u (Memᴰ.head p) (Memᴰ.head q) s = p ∙ sym q
HasUniqueKeys-eq (row ∷ rows) (u, us) (Memᴰ.head p) (Memᴰ.tail n) s =
    absurd (All-Mem _ rows u n (rw (← p) s))
HasUniqueKeys-eq (row ∷ rows) (u, us) (Memᴰ.tail m) (Memᴰ.head q) (s0, s1, s2, s3) =
    absurd (All-Mem _ rows u m (rw (← q) (sym s0, sym s1, sym s2, sym s3)))
HasUniqueKeys-eq (row ∷ rows) (u, us) (Memᴰ.tail m) (Memᴰ.tail n) s = HasUniqueKeys-eq rows us m n s

Evolves-Avoids :
    (now : ℕ) (row row' : Row) (old new : Table)
    → row'.columns ≡ row.columns
    → Evolves now old new
    → All (λ other. ¬ (SameKey row other)) old
    → All (λ other. ¬ (SameKey row' other)) new
Evolves-Avoids now row row' [] [] same e u = tt
Evolves-Avoids now row row' [] (n ∷ ns) same e u = absurd e
Evolves-Avoids now row row' (o ∷ os) [] same e u = absurd e
Evolves-Avoids now row row' (o ∷ os) (n ∷ ns) same (inl kept, e) (u, us) =
    (λ key. u (rw (← kept) (rw same at key)), Evolves-Avoids now row row' os ns same e us)
Evolves-Avoids now row row' (o ∷ os) (n ∷ ns) same (inr step, e) (u, us) =
    (λ key. u (rw step.envelope.0 at (rw same at key)), Evolves-Avoids now row row' os ns same e us)

-- Keys stay distinct, since no accepted step changes a key.
pub Evolves-HasUniqueKeys :
    (now : ℕ) (old new : Table) → Evolves now old new → HasUniqueKeys old → HasUniqueKeys new
Evolves-HasUniqueKeys now [] [] e u = tt
Evolves-HasUniqueKeys now [] (n ∷ ns) e u = absurd e
Evolves-HasUniqueKeys now (o ∷ os) [] e u = absurd e
Evolves-HasUniqueKeys now (o ∷ os) (n ∷ ns) (inl kept, e) (u, us) = (
  Evolves-Avoids now o n os ns (ap (λ (r : Row). r.columns) kept) e u,
  Evolves-HasUniqueKeys now os ns e us,
)
Evolves-HasUniqueKeys now (o ∷ os) (n ∷ ns) (inr step, e) (u, us) =
    (Evolves-Avoids now o n os ns step.envelope.0 e u, Evolves-HasUniqueKeys now os ns e us)

-- A row that passes the test is in the new table as it was set.
pub update_where_mem :
    (test : Row → Bool) (set : Row → Row) (table : Table) (row : Row)
    → Memᴰ row table
    → test row ≡ true
    → Memᴰ (set row) (update_where test set table)
unfolding update_where
update_where_mem test set [] row m h = elim m [ ]
update_where_mem test set (r ∷ rows) row (Memᴰ.head e) h = Memᴰ.head (rw (rw e at h) (ap set e))
update_where_mem test set (r ∷ rows) row (Memᴰ.tail m) h =
    Memᴰ.tail (update_where_mem test set rows row m h)
