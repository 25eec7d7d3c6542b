-- ===== src/Truth/Confidence/Selection.antt =====
-- Which selections of claims pass `validateClaims` (packages/truth-ledger/src/confidence.ts).
use throughline.Prelude.{
  Result-cases, ◌∙◌, ◌≤◌, ◌<◌, ◌≡◌, refl, ap, ◌⊎◌, ◌≢◌, inl, inr, Bool, true, false, List, [], ◌∷◌,
  ok, All, length, arith, JsString, str_eq_iff, includes,
}
use throughline.Truth.Validation.{is_uuid_v7, require_uuid_v7}
use throughline.Truth.Confidence.{SelectedClaim, validate_each, validate_claims}

-- None of the listed strings is `x`.
abbrev pub Avoids : List JsString → JsString → Type 0
Avoids seen x = All (λ y. y ≢ x) seen

includes-false : (seen : List JsString) (x : JsString) → includes seen x ≡ false → Avoids seen x
unfolding includes
includes-false [] x h = tt
includes-false (y ∷ seen) x h =
    (λ e. ground (arith, str_eq_iff y x), includes-false seen x (ground arith))

includes_of_Avoids : (seen : List JsString) (x : JsString) → Avoids seen x → includes seen x ≡ false
unfolding includes
includes_of_Avoids [] x h = refl
includes_of_Avoids (y ∷ seen) x (p, h) = ground (arith, str_eq_iff y x, includes_of_Avoids seen x h)

abbrev pub HasUuid : SelectedClaim → Type 0
HasUuid claim = is_uuid_v7 claim.claim_id ≡ true

-- No two claims have the same identifier.
abbrev pub Distinct : List SelectedClaim → Type 0
Distinct [] = Unit
Distinct (c ∷ cs) = All (λ (d : SelectedClaim). c.claim_id ≢ d.claim_id) cs × Distinct cs

abbrev AvoidsAll : List JsString → List SelectedClaim → Type 0
AvoidsAll seen claims = All (λ (d : SelectedClaim). Avoids seen d.claim_id) claims

AvoidsAll-cons :
    (x : JsString) (seen : List JsString) (claims : List SelectedClaim)
    → AvoidsAll (x ∷ seen) claims
    → All (λ (d : SelectedClaim). x ≢ d.claim_id) claims × AvoidsAll seen claims
AvoidsAll-cons x seen [] h = (tt, tt)
AvoidsAll-cons x seen (d ∷ ds) ((p, q), h) =
    let (ps, qs) = AvoidsAll-cons x seen ds h in ((p, ps), (q, qs))

AvoidsAll-of :
    (x : JsString) (seen : List JsString) (claims : List SelectedClaim)
    → All (λ (d : SelectedClaim). x ≢ d.claim_id) claims
    → AvoidsAll seen claims
    → AvoidsAll (x ∷ seen) claims
AvoidsAll-of x seen [] p q = tt
AvoidsAll-of x seen (d ∷ ds) (p, ps) (q, qs) = ((p, q), AvoidsAll-of x seen ds ps qs)

validate_each-step :
    (seen : List JsString) (c : SelectedClaim) (cs result : List SelectedClaim)
    → validate_each seen (c ∷ cs) ≡ ok result
    → (is_uuid_v7 c.claim_id ≡ true)
      × (includes seen c.claim_id ≡ false)
      × ((rest : List SelectedClaim) × (validate_each (c.claim_id ∷ seen) cs ≡ ok rest)
          × (result ≡ c ∷ rest))
unfolding validate_each require_uuid_v7
validate_each-step seen c cs result h = elim (Result-cases (validate_each (c.claim_id ∷ seen) cs)) [
  | inl (rest, e) ↦ (ground (arith, e), ground (arith, e), (rest, e, ground (arith, e)))
  | inr (x, e) ↦ absurd (ground (arith, e))
]

validate_each_sound :
    (seen : List JsString) (claims result : List SelectedClaim)
    → validate_each seen claims ≡ ok result
    → (result ≡ claims) × All HasUuid claims × Distinct claims × AvoidsAll seen claims
validate_each_sound seen [] result h = (unfold validate_each in ground arith, tt, tt, tt)
validate_each_sound seen (c ∷ cs) result h =
    let (uuid, fresh, (rest, e, same)) = validate_each-step seen c cs result h in
    let (ih, uuids, distinct, avoid) = validate_each_sound (c.claim_id ∷ seen) cs rest e in
    let (others, avoids) = AvoidsAll-cons c.claim_id seen cs avoid in
    (
      same ∙ ap (◌∷◌ c) ih,
      (uuid, uuids),
      (others, distinct),
      (includes-false seen c.claim_id fresh, avoids),
    )

validate_each_complete :
    (seen : List JsString) (claims : List SelectedClaim)
    → All HasUuid claims
    → Distinct claims
    → AvoidsAll seen claims
    → validate_each seen claims ≡ ok claims
unfolding validate_each require_uuid_v7
validate_each_complete seen [] u d a = refl
validate_each_complete seen (c ∷ cs) (u, us) (d, ds) (a, as_) = ground (
  arith,
  u,
  includes_of_Avoids seen c.claim_id a,
  validate_each_complete (c.claim_id ∷ seen) cs us ds (AvoidsAll-of c.claim_id seen cs d as_),
)

-- What `validateClaims` asks of a selection.
pub record IsSelection (claims : List SelectedClaim) : Type 0 where
  pub at_most : length claims ≤ 100
  pub uuids : All HasUuid claims
  pub distinct : Distinct claims

pub validate_claims_sound :
    (claims : List SelectedClaim) (allow_empty : Bool) (result : List SelectedClaim)
    → validate_claims claims allow_empty ≡ ok result
    → (result ≡ claims) × IsSelection claims × ((allow_empty ≡ true) ⊎ (0 < length claims))
unfolding validate_claims
validate_claims_sound claims allow_empty result h =
    let valid : validate_each [] claims ≡ ok result = ground arith in
    let (same, uuids, distinct, _) = validate_each_sound [] claims result valid in
    (same, record { at_most = ground arith; uuids = uuids; distinct = distinct }, ground arith)

AvoidsAll-nothing : (claims : List SelectedClaim) → AvoidsAll [] claims
AvoidsAll-nothing [] = tt
AvoidsAll-nothing (c ∷ cs) = (tt, AvoidsAll-nothing cs)

pub validate_claims_complete :
    (claims : List SelectedClaim) (allow_empty : Bool)
    → IsSelection claims
    → (allow_empty ≡ true) ⊎ (0 < length claims)
    → validate_claims claims allow_empty ≡ ok claims
unfolding validate_claims
validate_claims_complete claims allow_empty s nonempty = ground (
  arith,
  validate_each_complete [] claims s.uuids s.distinct (AvoidsAll-nothing claims),
  nonempty,
  s.at_most,
)
