-- ===== src/WorkGraph/Relationship.antt =====
-- packages/work-graph/src/work-graph.ts: `deriveRelationshipGoverningSpace`. `Date.parse` is the
-- parameter `date_parse`, with `none` for a text that is no date. An optional text is an `Option`; as
-- in the source, an empty text counts as none where its truth is tested.
pub mod Laws
use throughline.Prelude.{
  ℕ, Bool, true, false, ◌&&◌, ◌||◌, not, Option, none, some, List, [], ◌∷◌, Result, ok, err, ◌>>=◌,
  ◌>>◌, throw_if, leb, ltb, ◌==◌, all, if◌then◌else◌, JsString, str_eq,
}
use throughline.Core.AccessClass.{AccessClass, rank}

-- B1RelationshipEntityKind
pub data EntityKind : Type 0 where
  space person organization initiative activity content : EntityKind

unfoldable pub same_kind : EntityKind → EntityKind → Bool
same_kind space space = true
same_kind person person = true
same_kind organization organization = true
same_kind initiative initiative = true
same_kind activity activity = true
same_kind content content = true
same_kind _ _ = false

pub record RelationshipEndpoint : Type 0 where
  pub type : EntityKind
  pub id : JsString

pub record SpaceBearingEndpoint : Type 0 where
  pub tenant_id : JsString
  pub workspace_id : JsString
  pub space_id : Option JsString
  pub access_class : AccessClass

pub data InvariantError : Type 0 where
  work_graph_invariant : InvariantError

pub record RelationshipInput : Type 0 where
  pub tenant_id : JsString
  pub workspace_id : JsString
  pub subject : RelationshipEndpoint
  pub object : RelationshipEndpoint
  pub context : Option RelationshipEndpoint
  pub predicate : JsString
  pub valid_from : Option JsString
  pub valid_to : Option JsString

pub record Governing : Type 0 where
  pub space_id : JsString
  pub access_class : AccessClass

is_lower : ℕ → Bool
is_lower u = leb b'a' u && leb u b'z'

is_tail : ℕ → Bool
is_tail u = (leb b'a' u && leb u b'z') || (leb b'0' u && leb u b'9') || u == b'_'

-- The rest of `^[a-z][a-z0-9_]*(?:\.[a-z0-9_]+)*$`; `dotted` is whether a dot has just been read.
unfoldable pub predicate_tail : (dotted : Bool) → JsString → Bool
unfolding is_tail
predicate_tail dotted [] = not dotted
predicate_tail dotted (u ∷ s) = elim (is_tail u) [
  | true ↦ predicate_tail false s
  | false ↦ u == b'.' && not dotted && predicate_tail true s
]

unfoldable pub is_predicate : JsString → Bool
unfolding predicate_tail is_lower
is_predicate [] = false
is_predicate (u ∷ s) = is_lower u && predicate_tail false s

-- The text of a value that is there and not empty.
abbrev pub truthy : Option JsString → Option JsString
truthy none = none
truthy (some []) = none
truthy (some (u ∷ s)) = some (u ∷ s)

-- `a <= b` where NaN is below nothing.
abbrev pub at_most : Option ℕ → Option ℕ → Bool
at_most (some a) (some b) = leb a b
at_most _ _ = false

abbrev pub is_empty_range : (date_parse : JsString → Option ℕ) → (from to : Option JsString) → Bool
is_empty_range date_parse (some from) (some to) = at_most (date_parse to) (date_parse from)
is_empty_range date_parse _ _ = false

unfoldable pub require_endpoint :
    Option SpaceBearingEndpoint
    → (tenant_id workspace_id : JsString) → Result InvariantError SpaceBearingEndpoint
require_endpoint none tenant_id workspace_id = err work_graph_invariant
require_endpoint (some endpoint) tenant_id workspace_id = do
  throw_if
      (not (str_eq endpoint.tenant_id tenant_id) || not (str_eq endpoint.workspace_id workspace_id))
      work_graph_invariant
  ok endpoint

-- `mostRestrictive` of a list that is not empty, the first class apart.
unfoldable pub most_restrictive : AccessClass → List AccessClass → AccessClass
unfolding rank
most_restrictive maximum [] = maximum
most_restrictive maximum (current ∷ cs) =
    most_restrictive (if ltb (rank maximum) (rank current) then current else maximum) cs

-- The choice of the governing endpoint: its Space and its class.
unfoldable pub governing_endpoint :
    (context : Option SpaceBearingEndpoint)
    → (subject object : SpaceBearingEndpoint) → Result InvariantError (JsString × AccessClass)
governing_endpoint (some context) subject object = elim (truthy context.space_id) [
  | none ↦ err work_graph_invariant
  | some id ↦ ok (id, context.access_class)
]
governing_endpoint none subject object = elim (truthy subject.space_id) [
  | some id ↦ ok (id, subject.access_class)
  | none ↦ elim (truthy object.space_id) [
    | some id ↦ ok (id, object.access_class)
    | none ↦ err work_graph_invariant
  ]
]

abbrev pub context_classes : Option SpaceBearingEndpoint → List AccessClass
context_classes none = []
context_classes (some context) = context.access_class ∷ []

module _ (date_parse : JsString → Option ℕ)
    (resolve : RelationshipEndpoint → Option SpaceBearingEndpoint) where
  unfoldable pub resolve_context :
      RelationshipInput → Result InvariantError (Option SpaceBearingEndpoint)
  unfolding require_endpoint
  resolve_context input = elim input.context [
    | none ↦ ok none
    | some endpoint ↦ do
      found ← require_endpoint (resolve endpoint) input.tenant_id input.workspace_id
      ok (some found)
  ]

  unfoldable pub derive_relationship_governing_space :
      RelationshipInput → Result InvariantError Governing
  derive_relationship_governing_space input = do
    throw_if (not (is_predicate input.predicate)) work_graph_invariant
    throw_if
        (same_kind input.subject.type input.object.type && str_eq input.subject.id input.object.id)
        work_graph_invariant
    throw_if (is_empty_range date_parse (truthy input.valid_from) (truthy input.valid_to))
        work_graph_invariant
    subject ← require_endpoint (resolve input.subject) input.tenant_id input.workspace_id
    object ← require_endpoint (resolve input.object) input.tenant_id input.workspace_id
    context ← resolve_context input
    governing ← governing_endpoint context subject object
    ok (record {
      space_id = governing.0;
      access_class =
          most_restrictive governing.1
            (subject.access_class ∷ object.access_class ∷ context_classes context);
    })
