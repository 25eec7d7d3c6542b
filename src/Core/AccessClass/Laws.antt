-- ===== src/Core/AccessClass/Laws.antt =====
-- The combination of access classes against the reading rule (trust-primitives.ts).
use mathlib.Core.List.{Memᴰ}
use throughline.Prelude.{
  ◌∙◌, ◌≤◌, ◌≡◌, refl, ◌⊎◌, inl, inr, Bool, ◌&&◌, List, [], ◌∷◌, ok, All, all, arith,
}
use throughline.Core.AccessClass.{
  AccessClass, rank, keep_higher, reduce_max, max_access_class, can_read_access_class,
}

pub rank-keep_higher :
    (a b : AccessClass) → (rank a ≤ rank (keep_higher a b)) × (rank b ≤ rank (keep_higher a b))
unfolding keep_higher
rank-keep_higher a b = ground arith

keep_higher-cases : (a b : AccessClass) → (keep_higher a b ≡ a) ⊎ (keep_higher a b ≡ b)
unfolding keep_higher
keep_higher-cases a b = ground arith

pub rank-reduce_max : (m : AccessClass) (cs : List AccessClass) → rank m ≤ rank (reduce_max m cs)
unfolding reduce_max
rank-reduce_max m [] = omega arith
rank-reduce_max m (c ∷ cs) =
    omega (arith, rank-keep_higher m c, rank-reduce_max (keep_higher m c) cs)

abbrev pub IsBelow : AccessClass → AccessClass → Type 0
IsBelow top c = rank c ≤ rank top

reduce_max-All : (m : AccessClass) (cs : List AccessClass) → All (IsBelow (reduce_max m cs)) cs
unfolding reduce_max
reduce_max-All m [] = tt
reduce_max-All m (c ∷ cs) = (
  omega (arith, rank-keep_higher m c, rank-reduce_max (keep_higher m c) cs),
  reduce_max-All (keep_higher m c) cs,
)

Mem-either :
    {k x : AccessClass} (a b : AccessClass) (cs : List AccessClass)
    → (k ≡ a) ⊎ (k ≡ b)
    → Memᴰ x (k ∷ cs)
    → Memᴰ x (a ∷ b ∷ cs)
Mem-either a b cs (inl e) (Memᴰ.head p) = Memᴰ.head (p ∙ e)
Mem-either a b cs (inr e) (Memᴰ.head p) = Memᴰ.tail (Memᴰ.head (p ∙ e))
Mem-either a b cs e (Memᴰ.tail m) = Memᴰ.tail (Memᴰ.tail m)

reduce_max-Mem : (m : AccessClass) (cs : List AccessClass) → Memᴰ (reduce_max m cs) (m ∷ cs)
unfolding reduce_max
reduce_max-Mem m [] = Memᴰ.head refl
reduce_max-Mem m (c ∷ cs) =
    Mem-either m c cs (keep_higher-cases m c) (reduce_max-Mem (keep_higher m c) cs)

can_read-keep_higher :
    (ceiling a b : AccessClass)
    → can_read_access_class ceiling (keep_higher a b)
      ≡ (can_read_access_class ceiling a && can_read_access_class ceiling b)
unfolding keep_higher can_read_access_class
can_read-keep_higher ceiling a b = ground arith

and_assoc : (a b c : Bool) → ((a && b) && c) ≡ (a && (b && c))
and_assoc a b c = ground arith

can_read-reduce_max :
    (ceiling m : AccessClass) (cs : List AccessClass)
    → can_read_access_class ceiling (reduce_max m cs)
      ≡ (can_read_access_class ceiling m && all (can_read_access_class ceiling) cs)
unfolding reduce_max
can_read-reduce_max ceiling m [] = ground arith
can_read-reduce_max ceiling m (c ∷ cs) =
    rw (can_read-reduce_max ceiling (keep_higher m c) cs, can_read-keep_higher)
      (and_assoc (can_read_access_class ceiling m) (can_read_access_class ceiling c)
        (all (can_read_access_class ceiling) cs))

-- Over a non-empty list the combined class is one of the listed classes and none of them is above
-- it, and a ceiling reads the combined class exactly when it reads every listed class.
pub max_access_class_lem :
    (c : AccessClass) (cs : List AccessClass)
    → (top : AccessClass) × (max_access_class (c ∷ cs) ≡ ok top)
      × Memᴰ top (c ∷ cs)
      × All (IsBelow top) (c ∷ cs)
      × ((ceiling : AccessClass)
          → can_read_access_class ceiling top ≡ all (can_read_access_class ceiling) (c ∷ cs))
unfolding max_access_class
max_access_class_lem c cs = (
  reduce_max c cs,
  refl,
  reduce_max-Mem c cs,
  (rank-reduce_max c cs, reduce_max-All c cs),
  λ ceiling. can_read-reduce_max ceiling c cs,
)
