-- ===== src/WorkGraph/Associations.antt =====
-- packages/work-graph/src/work-graph.ts: the associations of initiatives and activities, the times of
-- an activity and the domains of an organization. `toLowerCase`, `domainToASCII` and `Date.parse` are
-- the parameters `lower_case`, `domain_to_ascii` and `date_parse`.
pub mod Laws
use throughline.Prelude.{
  ℕ, suc, Bool, true, false, ◌&&◌, ◌||◌, not, Option, none, some, List, [], ◌∷◌, Result, ok, err,
  ◌>>=◌, ◌>>◌, throw_if, leb, ltb, ◌==◌, all, any, if◌then◌else◌, length, JsString, str_eq,
  includes, sort, units,
}
use throughline.Core.Whitespace.{trim}
use throughline.WorkGraph.Relationship.{InvariantError, work_graph_invariant, truthy}

-- `new Set(values).size === values.length`
unfoldable pub is_distinct : List JsString → Bool
unfolding includes
is_distinct [] = true
is_distinct (s ∷ ss) = not (includes ss s) && is_distinct ss

-- `values.filter((value) => value === id).length`
unfoldable pub occurrences : List JsString → JsString → ℕ
occurrences [] id = 0
occurrences (s ∷ ss) id = if str_eq s id then suc (occurrences ss id) else occurrences ss id

unfoldable pub validate_initiative_associations :
    List JsString → JsString → Result InvariantError (Unit {0})
unfolding is_distinct occurrences
validate_initiative_associations organization_ids primary_organization_id =
    throw_if
      (length organization_ids == 0
        || not (is_distinct organization_ids)
        || not (occurrences organization_ids primary_organization_id == 1))
      work_graph_invariant

pub data GoverningParent : Type 0 where
  governing_initiative governing_organization : JsString → GoverningParent

unfoldable pub resolve_activity_governing_parent :
    (initiative_ids organization_ids : List JsString)
    → (governing_initiative_id governing_organization_id : Option JsString)
    → Result InvariantError GoverningParent
unfolding includes
resolve_activity_governing_parent initiatives organizations (some i) (some o) =
    err work_graph_invariant
resolve_activity_governing_parent initiatives organizations none none = err work_graph_invariant
resolve_activity_governing_parent initiatives organizations (some i) none = do
  throw_if (not (includes initiatives i)) work_graph_invariant
  ok (governing_initiative i)
resolve_activity_governing_parent initiatives organizations none (some o) = do
  throw_if (not (includes organizations o)) work_graph_invariant
  ok (governing_organization o)

-- `a < b` where NaN is below nothing.
abbrev below : Option ℕ → Option ℕ → Bool
below (some a) (some b) = ltb a b
below _ _ = false

abbrev is_reversed :
    (date_parse : JsString → Option ℕ) → (starts_at ends_at : Option JsString) → Bool
is_reversed date_parse (some s) (some e) = below (date_parse e) (date_parse s)
is_reversed date_parse _ _ = false

unfoldable pub validate_activity_time :
    (date_parse : JsString → Option ℕ)
    → (starts_at ends_at : Option JsString) → Result InvariantError (Unit {0})
validate_activity_time date_parse starts_at ends_at =
    throw_if (is_reversed date_parse (truthy starts_at) (truthy ends_at)) work_graph_invariant

-- `replace(/\.$/, "")`
unfoldable pub strip_dot : JsString → JsString
strip_dot [] = []
strip_dot (u ∷ []) = if u == b'.' then [] else u ∷ []
strip_dot (u ∷ v ∷ s) = u ∷ strip_dot (v ∷ s)

-- `includes("://")`
unfoldable pub has_scheme : JsString → Bool
has_scheme [] = false
has_scheme (u ∷ s) = elim s [
  | [] ↦ false
  | v ∷ t ↦ elim t [ [] ↦ false | w ∷ r ↦ (u == b':' && v == b'/' && w == b'/') || has_scheme s ]
]

unfoldable pub has_unit : ℕ → JsString → Bool
has_unit u s = any (λ v. v == u) s

-- `split(".")`
unfoldable pub split_dots : JsString → List JsString
split_dots [] = [] ∷ []
split_dots (u ∷ s) = elim (split_dots s) [
  | [] ↦ (u ∷ []) ∷ []
  | part ∷ parts ↦ if u == b'.' then [] ∷ part ∷ parts else (u ∷ part) ∷ parts
]

is_label_char : ℕ → Bool
is_label_char u = (leb b'a' u && leb u b'z') || (leb b'0' u && leb u b'9') || u == b'-'

ends_in_dash : JsString → Bool
ends_in_dash [] = false
ends_in_dash (u ∷ []) = u == b'-'
ends_in_dash (u ∷ v ∷ s) = ends_in_dash (v ∷ s)

starts_with_dash : JsString → Bool
starts_with_dash [] = false
starts_with_dash (u ∷ s) = u == b'-'

-- `^(?!-)[a-z0-9-]{1,63}(?<!-)$`
unfoldable pub is_label : JsString → Bool
unfolding is_label_char ends_in_dash starts_with_dash
is_label s =
    all is_label_char s
    && leb 1 (length s)
    && leb (length s) 63
    && not (starts_with_dash s)
    && not (ends_in_dash s)

-- A host name in the form that the function returns.
unfoldable pub is_canonical_domain : JsString → Bool
unfolding split_dots is_label has_unit
is_canonical_domain ascii =
    not (length ascii == 0)
    && leb (length ascii) 253
    && all is_label (split_dots ascii)
    && has_unit b'.' ascii

module _ (lower_case domain_to_ascii : JsString → JsString) where
  unfoldable pub normalize_organization_domain : JsString → Result InvariantError JsString
  unfolding strip_dot has_scheme has_unit
  normalize_organization_domain input = do
    let candidate = lower_case (strip_dot (trim input))
    throw_if
        (length candidate == 0
          || has_scheme candidate
          || has_unit b'/' candidate
          || has_unit b'@' candidate)
        work_graph_invariant
    let ascii = lower_case (domain_to_ascii candidate)
    throw_if (not (is_canonical_domain ascii)) work_graph_invariant
    ok ascii

  unfoldable pub normalize_all : List JsString → Result InvariantError (List JsString)
  unfolding normalize_organization_domain
  normalize_all [] = ok []
  normalize_all (input ∷ inputs) = do
    domain ← normalize_organization_domain input
    domains ← normalize_all inputs
    ok (domain ∷ domains)

  unfoldable pub normalize_organization_domains :
      List JsString → Result InvariantError (List JsString)
  unfolding normalize_all is_distinct
  normalize_organization_domains inputs = do
    domains ← normalize_all inputs
    throw_if (not (is_distinct domains)) work_graph_invariant
    ok (sort domains)
