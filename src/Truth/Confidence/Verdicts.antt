-- ===== src/Truth/Confidence/Verdicts.antt =====
-- The claims that are kept as valid and the ones that are left out (packages/truth-ledger/src/confidence.ts).
use mathlib.Core.Path.{subst}
use mathlib.Core.List.{Memᴰ}
use throughline.Prelude.{
  ◌≡◌, refl, sym, inl, inr, true, false, List, [], ◌∷◌, All, arith, JsString, Bool-cases, Bool,
}
use throughline.Truth.Confidence.{SelectedClaim, claim_ids, valid_claims, invalid_claims}

-- A claim of the selection with this identifier is valid, or is not.
abbrev pub HasVerdict : Bool → List SelectedClaim → JsString → Type 0
HasVerdict verdict claims id =
    (c : SelectedClaim) × Memᴰ c claims × (c.claim_id ≡ id) × (c.valid ≡ verdict)

HasVerdict-later :
    (verdict : Bool) (c : SelectedClaim) (claims : List SelectedClaim) (ids : List JsString)
    → All (HasVerdict verdict claims) ids
    → All (HasVerdict verdict (c ∷ claims)) ids
HasVerdict-later verdict c claims [] h = tt
HasVerdict-later verdict c claims (id ∷ ids) ((d, m, e, v), h) =
    ((d, Memᴰ.tail m, e, v), HasVerdict-later verdict c claims ids h)

kept_valid :
    (c : SelectedClaim) (cs : List SelectedClaim)
    → c.valid ≡ true
    → valid_claims (c ∷ cs) ≡ c ∷ valid_claims cs
unfolding valid_claims
kept_valid c cs v = ground (arith, v)

dropped_valid :
    (c : SelectedClaim) (cs : List SelectedClaim)
    → c.valid ≡ false
    → valid_claims (c ∷ cs) ≡ valid_claims cs
unfolding valid_claims
dropped_valid c cs v = ground (arith, v)

kept_invalid :
    (c : SelectedClaim) (cs : List SelectedClaim)
    → c.valid ≡ false
    → invalid_claims (c ∷ cs) ≡ c ∷ invalid_claims cs
unfolding invalid_claims
kept_invalid c cs v = ground (arith, v)

dropped_invalid :
    (c : SelectedClaim) (cs : List SelectedClaim)
    → c.valid ≡ true
    → invalid_claims (c ∷ cs) ≡ invalid_claims cs
unfolding invalid_claims
dropped_invalid c cs v = ground (arith, v)

pub valid_claims-HasVerdict :
    (claims : List SelectedClaim) → All (HasVerdict true claims) (claim_ids (valid_claims claims))
unfolding valid_claims
valid_claims-HasVerdict [] = tt
valid_claims-HasVerdict (c ∷ cs) =
    let rest =
      HasVerdict-later true c cs (claim_ids (valid_claims cs)) (valid_claims-HasVerdict cs) in
    elim (Bool-cases c.valid) [
      | inl v ↦
          subst (λ kept. All (HasVerdict true (c ∷ cs)) (claim_ids kept)) (sym (kept_valid c cs v))
            ((c, Memᴰ.head refl, refl, v), rest)
      | inr v ↦
          subst (λ kept. All (HasVerdict true (c ∷ cs)) (claim_ids kept))
            (sym (dropped_valid c cs v)) rest
    ]

pub invalid_claims-HasVerdict :
    (claims : List SelectedClaim)
    → All (HasVerdict false claims) (claim_ids (invalid_claims claims))
unfolding invalid_claims
invalid_claims-HasVerdict [] = tt
invalid_claims-HasVerdict (c ∷ cs) =
    let rest =
      HasVerdict-later false c cs (claim_ids (invalid_claims cs)) (invalid_claims-HasVerdict cs) in
    elim (Bool-cases c.valid) [
      | inl v ↦
          subst (λ kept. All (HasVerdict false (c ∷ cs)) (claim_ids kept))
            (sym (dropped_invalid c cs v)) rest
      | inr v ↦
          subst (λ kept. All (HasVerdict false (c ∷ cs)) (claim_ids kept))
            (sym (kept_invalid c cs v)) ((c, Memᴰ.head refl, refl, v), rest)
    ]
