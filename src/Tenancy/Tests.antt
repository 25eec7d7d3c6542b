-- ===== src/Tenancy/Tests.antt =====
-- A cache key, and the theorem on keys at it.
use throughline.Prelude.{◌≡◌, refl, ok, JsString, units, str_eq, includes}
use throughline.Truth.Validation.{is_uuid_reference}
use throughline.Tenancy.ScopedKeys.{
  FoundationScope, ScopedResource, is_scope, validate_scope, validate_resource_scope,
  is_segment_unit, is_safe_segment, encode_resource_segment, join_with, resource_segments,
  build_scoped_key,
}
use throughline.Tenancy.ScopedKeys.Laws.{build_scoped_key_injective}

abbrev uuid : JsString
uuid = units "11111111-1111-4111-8111-111111111111"

abbrev scope : FoundationScope
scope = record { tenant_id = uuid; workspace_id = uuid; space_id = uuid }

abbrev resource : ScopedResource
resource = record { scope = scope; resource_type = units "note"; resource_id = units "n-1" }

abbrev key : JsString
key = join_with b':' (resource_segments scope (units "note") (units "n-1"))

key_run : build_scoped_key b':' scope resource ≡ ok key
unfolding build_scoped_key validate_resource_scope validate_scope is_scope is_uuid_reference str_eq
    encode_resource_segment is_safe_segment is_segment_unit includes join_with
key_run = refl

build_scoped_key_injective_example :
    (scope.tenant_id ≡ scope.tenant_id)
    × (scope.workspace_id ≡ scope.workspace_id)
    × (scope.space_id ≡ scope.space_id)
    × (resource.resource_type ≡ resource.resource_type)
    × (resource.resource_id ≡ resource.resource_id)
build_scoped_key_injective_example =
    build_scoped_key_injective b':' refl scope scope resource resource key key_run key_run
