-- ===== src/Prelude/Sort.antt =====
-- `sort()` on an array of strings: ascending by code units. Equal strings cannot be told apart, so
-- insertion gives the array that any sorting method gives.
use mathlib.Core.Bool.{Bool, true, false, ◌&&◌, ◌||◌}
use mathlib.Core.List.{List, [], ◌∷◌, Perm}
use mathlib.Core.Logic.{inl, inr}
use mathlib.Core.List.Perm
use throughline.Prelude.Tests.{ltb, ◌==◌, if◌then◌else◌, Bool-cases}
use throughline.Prelude.Text.{JsString}
use throughline.Prelude.Lists.{All}

unfoldable pub str_leb : JsString → JsString → Bool
str_leb [] t = true
str_leb (a ∷ s) [] = false
str_leb (a ∷ s) (b ∷ t) = ltb a b || (a == b && str_leb s t)

unfoldable pub insert_sorted : JsString → List JsString → List JsString
insert_sorted s [] = s ∷ []
insert_sorted s (t ∷ ts) = if str_leb s t then s ∷ t ∷ ts else t ∷ insert_sorted s ts

unfoldable pub sort : List JsString → List JsString
unfolding insert_sorted str_leb
sort [] = []
sort (s ∷ ss) = insert_sorted s (sort ss)

insert_sorted-perm : (s : JsString) (ts : List JsString) → Perm (insert_sorted s ts) (s ∷ ts)
unfolding insert_sorted
insert_sorted-perm s [] = Perm.refl _
insert_sorted-perm s (t ∷ ts) = elim (Bool-cases (str_leb s t)) [
  | inl le ↦ rw le (Perm.refl _)
  | inr gt ↦ rw gt (Perm.trans (Perm.cons t (insert_sorted-perm s ts)) (Perm.swap s t ts))
]

pub sort-perm : (ss : List JsString) → Perm (sort ss) ss
unfolding sort
sort-perm [] = Perm.refl _
sort-perm (s ∷ ss) = Perm.trans (insert_sorted-perm s (sort ss)) (Perm.cons s (sort-perm ss))

-- Sorting keeps what holds of all strings.
module _ {κ} (P : JsString → Type κ) where
  insert_sorted-All :
      (s : JsString) (ts : List JsString) → P s → All P ts → All P (insert_sorted s ts)
  unfolding insert_sorted
  insert_sorted-All s [] p ps = (p, tt)
  insert_sorted-All s (t ∷ ts) p (q, ps) = elim (Bool-cases (str_leb s t)) [
    | inl le ↦ rw (le, insert_sorted) (p, (q, ps))
    | inr gt ↦ rw (gt, insert_sorted) (q, insert_sorted-All s ts p ps)
  ]

  pub sort-All : (ss : List JsString) → All P ss → All P (sort ss)
  unfolding sort
  sort-All [] ps = tt
  sort-All (s ∷ ss) (p, ps) = insert_sorted-All s (sort ss) p (sort-All ss ps)
