-- ===== src/Tenancy/ScopedKeys/Laws.antt =====
-- Keys of different scopes or resources are different (scoped-resource-keys.ts).
use throughline.Prelude.{
  ℕ, ◌≡◌, refl, sym, ap, ◌∙◌, ◌⊎◌, inl, inr, Bool, true, ◌&&◌, ◌||◌, not, List, [], ◌∷◌, ◌++◌, ok,
  bind_value, check_value, ok_injective, leb, ◌==◌, all, length, JsString, units, All, Bool-cases,
  arith,
}
use throughline.Truth.Validation.{
  Template, matches, uuid_template, times, is_lower_hex, is_uuid_reference,
}
use throughline.Tenancy.ScopedKeys.{
  FoundationScope, ScopedResource, is_scope, is_segment_unit, is_safe_segment,
  validate_resource_scope, validate_scope, encode_resource_segment, join_with, resource_segments,
  build_scoped_key,
}

-- A text without the separator.
abbrev lacks : ℕ → JsString → Bool
lacks separator s = all (λ u. not (u == separator)) s

cut_at :
    (separator : ℕ) (s t x y : JsString)
    → lacks separator s ≡ true
    → lacks separator t ≡ true
    → s ++ (separator ∷ x) ≡ t ++ (separator ∷ y)
    → (s ≡ t) × (x ≡ y)
cut_at separator [] [] x y p q h = ground arith
cut_at separator [] (v ∷ t) x y p q h = absurd (ground arith)
cut_at separator (u ∷ s) [] x y p q h = absurd (ground arith)
cut_at separator (u ∷ s) (v ∷ t) x y p q h = ground (arith, cut_at separator s t x y)

join_with-injective :
    (separator : ℕ) (ss ts : List JsString)
    → All (λ s. lacks separator s ≡ true) ss
    → All (λ s. lacks separator s ≡ true) ts
    → length ss ≡ length ts
    → join_with separator ss ≡ join_with separator ts
    → ss ≡ ts
unfolding join_with
join_with-injective separator [] [] p q l h = refl
join_with-injective separator [] (t ∷ ts) p q l h = absurd (omega arith)
join_with-injective separator (s ∷ ss) [] p q l h = absurd (omega arith)
join_with-injective separator (s ∷ []) (t ∷ []) p q l h = ap (λ x. x ∷ []) h
join_with-injective separator (s ∷ []) (t ∷ t' ∷ ts) p q l h = absurd (omega arith)
join_with-injective separator (s ∷ s' ∷ ss) (t ∷ []) p q l h = absurd (omega arith)
join_with-injective separator (s ∷ s' ∷ ss) (t ∷ t' ∷ ts) (p, ps) (q, qs) l h =
    let (first, rest) = cut_at separator s t _ _ p q h in
    let others = join_with-injective separator (s' ∷ ss) (t' ∷ ts) ps qs (omega arith) rest in
    rw first (ap (λ x. t ∷ x) others)

matches-lacks :
    (separator : ℕ) (ps : Template) (s : JsString)
    → all (λ p. not (p separator)) ps ≡ true
    → matches ps s ≡ true
    → lacks separator s ≡ true
unfolding matches
matches-lacks separator [] [] h m = refl
matches-lacks separator [] (u ∷ s) h m = cc
matches-lacks separator (p ∷ ps) [] h m = refl
matches-lacks separator (p ∷ ps) (u ∷ s) h m =
    let rest = matches-lacks separator ps s in
    elim (Bool-cases (u == separator)) [
      | inr other ↦ ground (arith, rest, other)
      | inl same ↦ let e : u ≡ separator = ground (arith, same) in absurd (ground (arith, ap p e))
    ]

which_separator :
    (separator : ℕ)
    → (separator == b':') || (separator == b'/') ≡ true
    → (separator ≡ 58) ⊎ (separator ≡ 47)
which_separator separator h = ground arith

uuid-lacks :
    (separator : ℕ) (s : JsString)
    → (separator == b':') || (separator == b'/') ≡ true
    → is_uuid_reference s ≡ true
    → lacks separator s ≡ true
unfolding is_uuid_reference uuid_template times is_lower_hex
uuid-lacks separator s h m = elim (which_separator separator h) [
  | inl e ↦ matches-lacks separator (uuid_template (λ u. leb b'1' u && leb u b'8')) s (rw e refl) m
  | inr e ↦ matches-lacks separator (uuid_template (λ u. leb b'1' u && leb u b'8')) s (rw e refl) m
]

segment-lacks :
    (separator : ℕ) (s : JsString)
    → (separator == b':') || (separator == b'/') ≡ true
    → all is_segment_unit s ≡ true
    → lacks separator s ≡ true
unfolding is_segment_unit
segment-lacks separator [] h m = refl
segment-lacks separator (u ∷ s) h m = ground (arith, segment-lacks separator s)

encode_segment_ok :
    (value : JsString) {encoded : JsString}
    → encode_resource_segment value ≡ ok encoded
    → (encoded ≡ value) × (all is_segment_unit value ≡ true)
unfolding encode_resource_segment is_safe_segment
encode_segment_ok value h = ground (arith, h)

module _ (separator : ℕ) (known : (separator == b':') || (separator == b'/') ≡ true) where
  segments-lack :
      (scope : FoundationScope) (resource_type resource_id : JsString)
      → is_scope scope ≡ true
      → all is_segment_unit resource_type ≡ true
      → all is_segment_unit resource_id ≡ true
      → All (λ s. lacks separator s ≡ true) (resource_segments scope resource_type resource_id)
  unfolding is_scope
  segments-lack scope resource_type resource_id v t i = (
    segment-lacks separator (units "tenant") known (unfold is_segment_unit in refl),
    (
      uuid-lacks separator scope.tenant_id known (ground (arith, v)),
      (
        segment-lacks separator (units "workspace") known (unfold is_segment_unit in refl),
        (
          uuid-lacks separator scope.workspace_id known (ground (arith, v)),
          (
            segment-lacks separator (units "space") known (unfold is_segment_unit in refl),
            (
              uuid-lacks separator scope.space_id known (ground (arith, v)),
              (
                segment-lacks separator resource_type known t,
                (segment-lacks separator resource_id known i, tt),
              ),
            ),
          ),
        ),
      ),
    ),
  )

  build_scoped_key_ok :
      (scope : FoundationScope) (resource : ScopedResource) (key : JsString)
      → build_scoped_key separator scope resource ≡ ok key
      → (key
          ≡ join_with separator
              (resource_segments scope resource.resource_type resource.resource_id))
        × All
            (λ s. lacks separator s ≡ true)
            (resource_segments scope resource.resource_type resource.resource_id)
  unfolding build_scoped_key validate_resource_scope validate_scope
  build_scoped_key_ok scope resource key h =
      let (valid, h1) = check_value (validate_resource_scope scope resource) _ h in
      let (t, ht, h2) = bind_value (encode_resource_segment resource.resource_type) _ h1 in
      let (i, hi, h3) = bind_value (encode_resource_segment resource.resource_id) _ h2 in
      let (et, ut) = encode_segment_ok resource.resource_type ht in
      let (ei, ui) = encode_segment_ok resource.resource_id hi in
      let (own, _) = check_value (validate_scope scope) _ valid in
      (
        sym (ok_injective h3)
            ∙ ap (λ x. join_with separator (resource_segments scope x i)) et
            ∙ ap (λ x. join_with separator (resource_segments scope resource.resource_type x)) ei,
        segments-lack scope resource.resource_type resource.resource_id (ground (arith, own)) ut ui,
      )

  -- Two keys with the same separator, ":" of cache keys or "/" of object keys, are equal only for the
  -- same tenant, workspace, Space, resource type and resource identifier.
  pub build_scoped_key_injective :
      (scope scope' : FoundationScope) (resource resource' : ScopedResource) (key : JsString)
      → build_scoped_key separator scope resource ≡ ok key
      → build_scoped_key separator scope' resource' ≡ ok key
      → (scope.tenant_id ≡ scope'.tenant_id)
        × (scope.workspace_id ≡ scope'.workspace_id)
        × (scope.space_id ≡ scope'.space_id)
        × (resource.resource_type ≡ resource'.resource_type)
        × (resource.resource_id ≡ resource'.resource_id)
  build_scoped_key_injective scope scope' resource resource' key h h' =
      let (e, free) = build_scoped_key_ok scope resource key h in
      let (e', free') = build_scoped_key_ok scope' resource' key h' in
      let same =
        join_with-injective separator
          (resource_segments scope resource.resource_type resource.resource_id)
          (resource_segments scope' resource'.resource_type resource'.resource_id) free free' refl
          (sym e ∙ e') in
      (cc, cc, cc, cc, cc)
