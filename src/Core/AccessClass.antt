-- ===== src/Core/AccessClass.antt =====
-- packages/core-types/src/trust-primitives.ts: the access classes, their order and the reading rule.
-- `Object.hasOwn(ACCESS_CLASS_RANK, value)` holds of every constructor of the type.
pub mod Laws
use throughline.Prelude.{
  ℕ, Bool, true, false, Option, none, some, List, [], ◌∷◌, Result, ok, err, ltb, leb, if◌then◌else◌,
}

pub data AccessClass : Type 0 where
  public workspace restricted confidential : AccessClass

-- ACCESS_CLASS_RANK
unfoldable pub rank : AccessClass → ℕ
rank public = 0
rank workspace = 1
rank restricted = 2
rank confidential = 3

-- One round of the `reduce` of `maxAccessClass`.
unfoldable pub keep_higher : AccessClass → AccessClass → AccessClass
unfolding rank
keep_higher maximum current = if ltb (rank maximum) (rank current) then current else maximum

unfoldable pub reduce_max : AccessClass → List AccessClass → AccessClass
unfolding keep_higher
reduce_max maximum [] = maximum
reduce_max maximum (c ∷ cs) = reduce_max (keep_higher maximum c) cs

pub data AccessError : Type 0 where
  at_least_one : AccessError

unfoldable pub max_access_class : List AccessClass → Result AccessError AccessClass
unfolding reduce_max
max_access_class [] = err at_least_one
max_access_class (c ∷ cs) = ok (reduce_max c cs)

unfoldable pub can_read_access_class : AccessClass → AccessClass → Bool
unfolding rank
can_read_access_class ceiling resource_class = leb (rank resource_class) (rank ceiling)
