-- ===== src/Authorization/Spaces/Inherited.antt =====
-- packages/authorization/src/authorization-service.ts: the grants that the query lists as inherited
-- are those that reach the space through parents, below which nothing is restricted.
use mathlib.Core.Path.{subst}
use mathlib.Core.List.{Memᴰ}
use throughline.Prelude.{
  ℕ, zero, suc, ◌≤◌, ◌<◌, ◌≡◌, ◌≢◌, refl, Bool, true, false, ◌&&◌, Option, none, some, List, [],
  ◌∷◌, ◌++◌, any, ltb, if◌then◌else◌, Option-cases, ◌⊎◌, inl, inr, arith, Bool-cases, ap,
}
use throughline.Authorization.Terms.{SecurityContext}
use throughline.Authorization.Tables.{Database, Grant, Space}
use throughline.Authorization.Spaces.Walk.{
  PathRow, climb, grants_along, inherited_grants, is_restricted, number_from, parent_row,
  passes_down, space_grants,
}
use throughline.Authorization.Spaces.Climb.{WalkFrom, top, up}
use throughline.Authorization.Spaces.Grants.{
  Granted, direct, passed, space_grants-Granted, space_grants_ne,
}

-- Some row below this depth is restricted.
abbrev is_barred : ℕ → List PathRow → Bool
is_barred depth = any (λ boundary. ltb boundary.depth depth && is_restricted boundary.space)

number_from-le :
    (k : ℕ) (spaces : List Space) (row : PathRow) → Memᴰ row (number_from k spaces) → k ≤ row.depth
unfolding number_from
number_from-le k [] row m = elim m [ ]
number_from-le k (s ∷ spaces) row (Memᴰ.head same) =
    let e : row.depth ≡ k = ap (λ (r : PathRow). r.depth) same in omega (arith, e)
number_from-le k (s ∷ spaces) row (Memᴰ.tail m) = omega (arith, number_from-le (suc k) spaces row m)

not_barred : (d k : ℕ) (spaces : List Space) → d ≤ k → is_barred d (number_from k spaces) ≡ false
unfolding number_from
not_barred d k [] le = refl
not_barred d k (s ∷ spaces) le = ground (arith, not_barred d (suc k) spaces)

unbarred_cons :
    (d k : ℕ) (s : Space) (rest : List PathRow)
    → k < d
    → is_barred d ((record { space = s; depth = k }) ∷ rest) ≡ false
    → (is_restricted s ≡ false) × (is_barred d rest ≡ false)
unbarred_cons d k s rest above clear = ground arith

barred_cons :
    (d k : ℕ) (s : Space) (rest : List PathRow)
    → is_restricted s ≡ false
    → is_barred d rest ≡ false
    → is_barred d ((record { space = s; depth = k }) ∷ rest) ≡ false
barred_cons d k s rest inherits clear = ground arith

passes_down-true :
    (path : List PathRow) (row : PathRow)
    → passes_down path row ≡ true
    → (0 < row.depth) × (is_barred row.depth path ≡ false)
unfolding passes_down
passes_down-true path row passes = ground arith

append_ne : (gs hs : List Grant) → gs ≢ [] → gs ++ hs ≢ []
append_ne [] hs h = λ _. h refl
append_ne (g ∷ gs) hs h = λ e. cc e

append_right_ne : (gs hs : List Grant) → hs ≢ [] → gs ++ hs ≢ []
append_right_ne [] hs h = h
append_right_ne (g ∷ gs) hs h = λ e. cc e

cons_of-append :
    (gs hs : List Grant) {g : Grant} {rest : List Grant}
    → gs ++ hs ≡ g ∷ rest
    → ((others : List Grant) × (gs ≡ g ∷ others)) ⊎ (hs ≡ g ∷ rest)
cons_of-append [] hs e = inr e
cons_of-append (x ∷ gs) hs e = inl (gs, ground arith)

module _ (context : SecurityContext) (database : Database) where
  -- What a climb of `fuel` more steps finds above a space.
  abbrev above_of : ℕ → Option Space → List Space
  above_of fuel parent = elim parent [ none ↦ [] | some p ↦ climb context database fuel p ]

  head-Granted :
      (k : ℕ) (s : Space) (row : PathRow)
      → row ≡ record { space = s; depth = k }
      → Granted context database row.space
      → Granted context database s
  head-Granted k s row same granted =
      subst (Granted context database) (ap (λ (r : PathRow). r.space) same) granted

  -- A row of the climb that has grants, with nothing restricted below it.
  climbed-Granted :
      (fuel k : ℕ) (s : Space) (row : PathRow)
      → Memᴰ row (number_from k (climb context database fuel s))
      → is_barred row.depth (number_from k (climb context database fuel s)) ≡ false
      → Granted context database row.space
      → Granted context database s
  unfolding climb number_from
  climbed-Granted zero k s row (Memᴰ.head same) clear granted = head-Granted k s row same granted
  climbed-Granted zero k s row (Memᴰ.tail m) clear granted = elim m [ ]
  climbed-Granted (suc fuel) k s row (Memᴰ.head same) clear granted =
      head-Granted k s row same granted
  climbed-Granted (suc fuel) k s row (Memᴰ.tail m) clear granted =
      let (inherits, rest) =
        unbarred_cons row.depth k s _ (omega (arith, number_from-le (suc k) _ row m)) clear in
      elim (Option-cases (parent_row context database s)) [
        | inl e ↦ elim (subst (λ o. Memᴰ row (number_from (suc k) (above_of fuel o))) e m) [ ]
        | inr (parent, e) ↦ passed inherits e (
            climbed-Granted fuel (suc k) parent row
              (subst (λ o. Memᴰ row (number_from (suc k) (above_of fuel o))) e m)
              (subst (λ o. is_barred row.depth (number_from (suc k) (above_of fuel o)) ≡ false) e
                rest)
              granted)
      ]

  row_of-Granted :
      (s : Space) (above : List Space) (k : ℕ)
      → WalkFrom context database s above
      → Granted context database s
      → (row : PathRow) × Memᴰ row (number_from k above)
        × (is_barred row.depth (number_from k above) ≡ false)
        × (space_grants context database row.space.key.id ≢ [])
  unfolding number_from
  row_of-Granted s _ k (top no_parent) (direct g m same named) = (
    record { space = s; depth = k },
    Memᴰ.head refl,
    ground arith,
    space_grants_ne context database s g m same named,
  )
  row_of-Granted s _ k (top no_parent) (passed inherits e granted) = absurd (ground arith)
  row_of-Granted s _ k (up {above = above} e walk) (direct g m same named) = (
    record { space = s; depth = k },
    Memᴰ.head refl,
    ground (arith, not_barred k (suc k) above (omega arith)),
    space_grants_ne context database s g m same named,
  )
  row_of-Granted s _ k (up {parent = p} {above = above} e walk)
        (passed {parent = q} inherits e' granted) =
      let same : q ≡ p = ground arith in
      let (row, m, clear, listed) =
        row_of-Granted p above (suc k) walk (subst (Granted context database) same granted) in
      (row, Memᴰ.tail m, barred_cons row.depth k s _ inherits clear, listed)

  -- A row that has grants and passes them down puts a grant on the list.
  grants_along_ne :
      (path rows : List PathRow) (row : PathRow)
      → Memᴰ row rows
      → passes_down path row ≡ true
      → space_grants context database row.space.key.id ≢ []
      → grants_along context database path rows ≢ []
  unfolding grants_along
  grants_along_ne path [] row m passes listed = elim m [ ]
  grants_along_ne path (r ∷ rows) row (Memᴰ.head same) passes listed =
      let r_passes : passes_down path r ≡ true =
        subst (λ x. passes_down path x ≡ true) same passes in
      rw r_passes
        (append_ne _ _ (subst (λ x. space_grants context database x.space.key.id ≢ []) same listed))
  grants_along_ne path (r ∷ rows) row (Memᴰ.tail m) passes listed =
      let rest : grants_along context database path rows ≢ [] =
        grants_along_ne path rows row m passes listed in
      elim (Bool-cases (passes_down path r)) [
        | inl e ↦ rw e (append_right_ne (space_grants context database r.space.key.id) _ rest)
        | inr e ↦ rw e rest
      ]

  -- A row that passes its grants down, and is one of these.
  abbrev Source : List PathRow → List PathRow → Type 0
  Source path rows =
      (row : PathRow) × Memᴰ row rows
      × (passes_down path row ≡ true)
      × Granted context database row.space

  Source-choice :
      (path rows : List PathRow) (r : PathRow) (rest : List Grant) {g : Grant} {gs : List Grant}
      → (rest ≡ g ∷ gs → Source path rows)
      → (passes : Bool) → passes_down path r ≡ passes
      → (if passes then space_grants context database r.space.key.id ++ rest else rest) ≡ g ∷ gs
      → Source path (r ∷ rows)
  Source-choice path rows r rest later false e listed =
      let (row, m, passes, granted) = later listed in (row, Memᴰ.tail m, passes, granted)
  Source-choice path rows r rest later true e listed =
      elim (cons_of-append (space_grants context database r.space.key.id) rest listed) [
        | inl (others, here) ↦
            (r, Memᴰ.head refl, e, space_grants-Granted context database r.space here)
        | inr further ↦
            (let (row, m, passes, granted) = later further in (row, Memᴰ.tail m, passes, granted))
      ]

  -- A listed grant comes from a row that passes it down.
  grants_along-Source :
      (path rows : List PathRow) {g : Grant} {gs : List Grant}
      → grants_along context database path rows ≡ g ∷ gs
      → Source path rows
  unfolding grants_along
  grants_along-Source path [] listed = absurd (ground arith)
  grants_along-Source path (r ∷ rows) listed =
      Source-choice path rows r (grants_along context database path rows)
        (grants_along-Source path rows) (passes_down path r) refl listed

  -- Inherited grants on the list reach the target.
  pub listed-Granted :
      (fuel : ℕ) (s : Space) {g : Grant} {gs : List Grant}
      → inherited_grants context database (number_from 0 (climb context database fuel s)) ≡ g ∷ gs
      → Granted context database s
  unfolding inherited_grants
  listed-Granted fuel s listed =
      let (row, m, passes, granted) = grants_along-Source _ _ listed in
      climbed-Granted fuel 0 s row m (passes_down-true _ row passes).1 granted

  -- A grant that reaches a target through its parent is on the list.
  pub inherited_grants_ne :
      (s parent : Space) (above : List Space)
      → is_restricted s ≡ false
      → parent_row context database s ≡ some parent
      → WalkFrom context database parent above
      → Granted context database parent
      → inherited_grants context database (number_from 0 (s ∷ above)) ≢ []
  unfolding inherited_grants number_from passes_down
  inherited_grants_ne s parent above inherits e walk granted =
      let (row, m, clear, listed) = row_of-Granted parent above 1 walk granted in
      let clear' = barred_cons row.depth 0 s _ inherits clear in
      grants_along_ne (number_from 0 (s ∷ above)) (number_from 0 (s ∷ above)) row (Memᴰ.tail m)
        (ground (arith, number_from-le 1 above row m, clear')) listed
