-- ===== src/Authorization/Spaces/Climb.antt =====
-- packages/authorization/src/authorization-service.ts: the recursive query over the parents of a
-- space ends, and a climb of as many steps as there are spaces is all of it.
use mathlib.Core.List.{Memᴰ}
use throughline.Prelude.{
  ℕ, zero, suc, ◌≤◌, ◌<◌, ◌≡◌, Option, none, some, List, [], ◌∷◌, JsString, length, ltb,
  if◌then◌else◌, Option-cases, inl, inr, arith, ap,
}
use throughline.Authorization.Terms.{SecurityContext}
use throughline.Authorization.Tables.{Database, Space}
use throughline.Authorization.Tables.Queries.{live_space, find_where-Mem}
use throughline.Authorization.Spaces.Walk.{climb, parent_row}

-- The rows of the recursive query: the space, and its parents up to one that has none in sight.
pub data WalkFrom (context : SecurityContext) (database : Database)
    : Space → List Space → Type 0 where
  top : {s : Space} → parent_row context database s ≡ none → WalkFrom context database s (s ∷ [])
  up :
      {s parent : Space} {above : List Space}
      → parent_row context database s ≡ some parent
      → WalkFrom context database parent above
      → WalkFrom context database s (s ∷ above)

-- No space is its own ancestor: along the parents some number falls.
pub record IsForest (context : SecurityContext) (database : Database) : Type 0 where
  pub height : JsString → ℕ
  pub falls :
      (s parent : Space)
      → Memᴰ s database.spaces
      → parent_row context database s ≡ some parent
      → height parent.key.id < height s.key.id

module _ (height : JsString → ℕ) where
  count_below : ℕ → List Space → ℕ
  count_below n [] = 0
  count_below n (s ∷ spaces) =
      let rest = count_below n spaces in if ltb (height s.key.id) n then suc rest else rest

  count_below_mono :
      (m n : ℕ) (spaces : List Space) → m ≤ n → count_below m spaces ≤ count_below n spaces
  unfolding count_below
  count_below_mono m n [] le = omega arith
  count_below_mono m n (s ∷ spaces) le = ground (arith, count_below_mono m n spaces)

  count_below-le-length : (n : ℕ) (spaces : List Space) → count_below n spaces ≤ length spaces
  unfolding count_below
  count_below-le-length n [] = omega arith
  count_below-le-length n (s ∷ spaces) = ground (arith, count_below-le-length n spaces)

  -- A row at the bound is counted by any higher bound, and not by its own.
  count_below-lt :
      (n : ℕ) (s : Space) (spaces : List Space)
      → Memᴰ s spaces
      → height s.key.id < n
      → count_below (height s.key.id) spaces < count_below n spaces
  unfolding count_below
  count_below-lt n s [] at lower = elim at [ ]
  count_below-lt n s (t ∷ spaces) (Memᴰ.head same) lower =
      let e : height s.key.id ≡ height t.key.id = ap (λ (r : Space). height r.key.id) same in
      ground (arith, e, count_below_mono (height s.key.id) n spaces)
  count_below-lt n s (t ∷ spaces) (Memᴰ.tail at) lower =
      ground (arith, count_below-lt n s spaces at lower)

  count_below-lt-length :
      (s : Space) (spaces : List Space)
      → Memᴰ s spaces
      → count_below (height s.key.id) spaces < length spaces
  unfolding count_below
  count_below-lt-length s [] at = elim at [ ]
  count_below-lt-length s (t ∷ spaces) (Memᴰ.head same) =
      let e : height s.key.id ≡ height t.key.id = ap (λ (r : Space). height r.key.id) same in
      ground (arith, e, count_below-le-length (height s.key.id) spaces)
  count_below-lt-length s (t ∷ spaces) (Memᴰ.tail at) =
      ground (arith, count_below-lt-length s spaces at)

module _ (context : SecurityContext) (database : Database) where
  parent_row-Mem :
      (s : Space) {parent : Space}
      → parent_row context database s ≡ some parent
      → Memᴰ parent database.spaces
  unfolding parent_row live_space
  parent_row-Mem s {parent} found = elim (Option-cases s.parent_space_id) [
    | inl e ↦ absurd (let h : ◌≡◌ {A = Option Space} none (some parent) = rw e at found in cc)
    | inr (id, e) ↦ find_where-Mem _ database.spaces (rw e at found)
  ]

  module _ (forest : IsForest context database) where
    lower :
        (s parent : Space)
        → Memᴰ s database.spaces
        → parent_row context database s ≡ some parent
        → count_below forest.height (forest.height parent.key.id) database.spaces
          < count_below forest.height (forest.height s.key.id) database.spaces
    lower s parent at e =
        count_below-lt forest.height (forest.height s.key.id) parent database.spaces
          (parent_row-Mem s e) (forest.falls s parent at e)

    climb_steps :
        (fuel : ℕ) (s : Space)
        → Memᴰ s database.spaces
        → count_below forest.height (forest.height s.key.id) database.spaces ≤ fuel
        → WalkFrom context database s (climb context database fuel s)
    unfolding climb
    climb_steps zero s at enough = elim (Option-cases (parent_row context database s)) [
      | inl no_parent ↦ top no_parent
      | inr (parent, e) ↦ absurd (omega (arith, lower s parent at e))
    ]
    climb_steps (suc fuel) s at enough = elim (Option-cases (parent_row context database s)) [
      | inl no_parent ↦ rw no_parent (top no_parent)
      | inr (parent, e) ↦
          rw e (
            up e
              (climb_steps fuel parent (parent_row-Mem s e) (omega (arith, lower s parent at e))))
    ]

-- Where no space is its own ancestor, the climb from a space of the table by at least as many steps
-- as the table has rows is the whole result of the recursive query: it stops at a space that has no
-- parent in sight, and not because the steps ran out.
pub climb-WalkFrom :
    (context : SecurityContext) (database : Database) (s : Space) (fuel : ℕ)
    → IsForest context database
    → Memᴰ s database.spaces
    → length database.spaces ≤ fuel
    → WalkFrom context database s (climb context database fuel s)
climb-WalkFrom context database s fuel forest at enough =
    climb_steps context database forest fuel s at
      (omega (arith, count_below-lt-length forest.height s database.spaces at))
