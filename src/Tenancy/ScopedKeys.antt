-- ===== src/Tenancy/ScopedKeys.antt =====
-- packages/tenancy/src/scoped-resource-keys.ts: the keys of queues, cache entries and objects.
-- `encodeURIComponent` changes nothing in a segment that its pattern has let pass: every unit of it is
-- a lower-case letter, a digit, `_` or `-`.
pub mod Laws
use throughline.Prelude.{
  ℕ, Bool, true, false, ◌&&◌, ◌||◌, not, List, [], ◌∷◌, ◌++◌, Result, ok, err, ◌>>=◌, ◌>>◌,
  throw_if, leb, ◌==◌, all, length, JsString, units, str_eq, includes,
}
use throughline.Truth.Validation.{is_uuid_reference}

pub record FoundationScope : Type 0 where
  pub tenant_id : JsString
  pub workspace_id : JsString
  pub space_id : JsString

pub record ScopedResource : Type 0 where
  pub scope : FoundationScope
  pub resource_type : JsString
  pub resource_id : JsString

pub data KeyError : Type 0 where
  not_canonical_uuid scope_mismatch unsafe_segment : KeyError

unfoldable pub is_scope : FoundationScope → Bool
is_scope scope =
    is_uuid_reference scope.tenant_id
    && is_uuid_reference scope.workspace_id
    && is_uuid_reference scope.space_id

unfoldable pub validate_scope : FoundationScope → Result KeyError (Unit {0})
unfolding is_scope
validate_scope scope = throw_if (not (is_scope scope)) not_canonical_uuid

unfoldable pub validate_resource_scope :
    FoundationScope → ScopedResource → Result KeyError (Unit {0})
unfolding validate_scope
validate_resource_scope expected resource = do
  validate_scope expected
  validate_scope resource.scope
  throw_if
      (not (str_eq resource.scope.tenant_id expected.tenant_id)
        || not (str_eq resource.scope.workspace_id expected.workspace_id)
        || not (str_eq resource.scope.space_id expected.space_id))
      scope_mismatch

is_edge : ℕ → Bool
is_edge u = (leb b'a' u && leb u b'z') || (leb b'0' u && leb u b'9')

unfoldable pub is_segment_unit : ℕ → Bool
unfolding is_edge
is_segment_unit u = is_edge u || u == b'_' || u == b'-'

last_is_edge : JsString → Bool
unfolding is_edge
last_is_edge [] = false
last_is_edge (u ∷ []) = is_edge u
last_is_edge (u ∷ v ∷ s) = last_is_edge (v ∷ s)

first_is_edge : JsString → Bool
unfolding is_edge
first_is_edge [] = false
first_is_edge (u ∷ s) = is_edge u

-- SAFE_SEGMENT_PATTERN
unfoldable pub is_safe_segment : JsString → Bool
unfolding is_segment_unit last_is_edge first_is_edge
is_safe_segment s = all is_segment_unit s && leb (length s) 64 && first_is_edge s && last_is_edge s

-- `includes("..")`
has_two_dots : JsString → Bool
has_two_dots [] = false
has_two_dots (u ∷ []) = false
has_two_dots (u ∷ v ∷ s) = (u == b'.' && v == b'.') || has_two_dots (v ∷ s)

-- INFRASTRUCTURE_HOST_NAMES
abbrev pub infrastructure_host_names : List JsString
infrastructure_host_names = units "localhost" ∷ units "localhost.localdomain" ∷ []

unfoldable pub encode_resource_segment : JsString → Result KeyError JsString
unfolding is_safe_segment has_two_dots includes
encode_resource_segment value = do
  throw_if
      (not (is_safe_segment value)
        || includes infrastructure_host_names value
        || has_two_dots value)
      unsafe_segment
  ok value

-- `join` with a separator of one unit.
unfoldable pub join_with : ℕ → List JsString → JsString
join_with separator [] = []
join_with separator (s ∷ []) = s
join_with separator (s ∷ t ∷ ss) = s ++ (separator ∷ join_with separator (t ∷ ss))

abbrev pub scope_segments : FoundationScope → List JsString
scope_segments scope =
    units "tenant"
    ∷ scope.tenant_id
    ∷ units "workspace"
    ∷ scope.workspace_id
    ∷ units "space"
    ∷ scope.space_id
    ∷ []

abbrev pub resource_segments :
    FoundationScope → (resource_type resource_id : JsString) → List JsString
resource_segments scope resource_type resource_id =
    units "tenant"
    ∷ scope.tenant_id
    ∷ units "workspace"
    ∷ scope.workspace_id
    ∷ units "space"
    ∷ scope.space_id
    ∷ resource_type
    ∷ resource_id
    ∷ []

unfoldable pub build_scoped_queue_key : FoundationScope → Result KeyError JsString
unfolding validate_scope join_with
build_scoped_queue_key scope = do validate_scope scope; ok (join_with b'/' (scope_segments scope))

-- `buildScopedCacheKey` with ":", `buildScopedObjectKey` with "/".
unfoldable pub build_scoped_key :
    (separator : ℕ) → FoundationScope → ScopedResource → Result KeyError JsString
unfolding validate_resource_scope encode_resource_segment join_with
build_scoped_key separator scope resource = do
  validate_resource_scope scope resource
  resource_type ← encode_resource_segment resource.resource_type
  resource_id ← encode_resource_segment resource.resource_id
  ok (join_with separator (resource_segments scope resource_type resource_id))

unfoldable pub build_scoped_cache_key : FoundationScope → ScopedResource → Result KeyError JsString
build_scoped_cache_key scope resource = build_scoped_key b':' scope resource

unfoldable pub build_scoped_object_key : FoundationScope → ScopedResource → Result KeyError JsString
build_scoped_object_key scope resource = build_scoped_key b'/' scope resource
