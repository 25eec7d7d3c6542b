-- ===== src/Truth/Tests.antt =====
-- Runs of the confidence rule, and its theorems at concrete inputs.
use mathlib.Core.List.{Memᴰ, Perm}
use throughline.Prelude.{
  false, All, ◌≡◌, ◌≤◌, ◌↔◌, refl, List, [], ◌∷◌, ◌++◌, ok, some, none, arith, JsString, units,
  true, length, str_eq, str_eq_iff, includes, sort,
}
use throughline.Truth.Validation.{is_uuid_v7, require_uuid_v7}
use throughline.Truth.Confidence.{
  SelectedClaim, weak, strong, ConfidenceResult, SupportAssessment, sustained, confidence_rank,
  valid_claims, claim_ids, calculate_accepted_fact_confidence, unlowered,
  assess_recorded_confidence_support, validate_claims, validate_each, strongest_rank,
  confidence_at_rank, apply_lowering, strongest_active, is_sustained,
}
use throughline.Truth.Confidence.Selection.{IsSelection}
use throughline.Truth.Confidence.Verdicts.{HasVerdict}
use throughline.Truth.Confidence.Laws.{
  IsStrongest, FollowsRequest, calculate_accepted_fact_confidence_lem,
  calculate_accepted_fact_confidence_complete, assess_recorded_confidence_support_lem,
}

abbrev toy_nfc : JsString → JsString
toy_nfc s = s

abbrev id_a : JsString
id_a = units "01890000-0000-7000-8000-00000000000a"

abbrev id_b : JsString
id_b = units "01890000-0000-7000-8000-00000000000b"

abbrev claims : List SelectedClaim
claims =
    record { claim_id = id_b; confidence = weak; valid = true }
    ∷ record { claim_id = id_a; confidence = strong; valid = true }
    ∷ []

uuids : (is_uuid_v7 id_a ≡ true) × (is_uuid_v7 id_b ≡ true)
unfolding is_uuid_v7
uuids = (refl, refl)

claims-IsSelection : IsSelection claims
unfolding str_eq
claims-IsSelection = record {
  at_most = omega arith;
  uuids = (uuids.1, (uuids.0, tt));
  distinct = (((λ e. ground (arith, str_eq_iff id_b id_a)), tt), (tt, tt));
}

calculate_example :
    calculate_accepted_fact_confidence toy_nfc claims none ≡ ok (unlowered claims strong)
unfolding calculate_accepted_fact_confidence validate_claims validate_each require_uuid_v7
    is_uuid_v7 includes str_eq valid_claims strongest_rank confidence_rank confidence_at_rank
    apply_lowering
calculate_example = refl

calculate_accepted_fact_confidence_example :
    IsStrongest (unlowered claims strong).strongest_supporting_confidence (valid_claims claims)
    × FollowsRequest none (unlowered claims strong)
    × Perm
        ((unlowered claims strong).selected_valid_claim_ids
          ++ (unlowered claims strong).excluded_invalid_claim_ids)
        (claim_ids claims)
    × All (HasVerdict true claims) (unlowered claims strong).selected_valid_claim_ids
    × All (HasVerdict false claims) (unlowered claims strong).excluded_invalid_claim_ids
    × ((unlowered claims strong).valid_support_count ≡ length (valid_claims claims))
calculate_accepted_fact_confidence_example =
    calculate_accepted_fact_confidence_lem toy_nfc claims none (unlowered claims strong)
      calculate_example

calculate_accepted_fact_confidence_complete_example :
    (r : ConfidenceResult) × (calculate_accepted_fact_confidence toy_nfc claims none ≡ ok r)
unfolding valid_claims
calculate_accepted_fact_confidence_complete_example =
    calculate_accepted_fact_confidence_complete toy_nfc claims none claims-IsSelection (omega arith)
      (λ top s. tt)

abbrev assessment : SupportAssessment
assessment = record {
  recorded_confidence = strong;
  strongest_active_support = some strong;
  disposition = sustained;
  active_valid_claim_ids = id_a ∷ id_b ∷ [];
}

assess_runs : assess_recorded_confidence_support strong claims ≡ ok assessment
unfolding assess_recorded_confidence_support validate_claims validate_each require_uuid_v7
    is_uuid_v7 includes str_eq valid_claims strongest_rank confidence_rank confidence_at_rank
    strongest_active is_sustained sort
assess_runs = refl

assess_recorded_confidence_support_example :
    (assessment.recorded_confidence ≡ strong)
    × ((assessment.disposition ≡ sustained) ↔ (
        (c : SelectedClaim) × Memᴰ c (valid_claims claims)
        × (confidence_rank strong ≤ confidence_rank c.confidence)))
assess_recorded_confidence_support_example =
    assess_recorded_confidence_support_lem strong claims assessment assess_runs
