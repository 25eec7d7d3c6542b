-- ===== src/Truth/Confidence.antt =====
-- packages/truth-ledger/src/confidence.ts: the confidence of an accepted fact. The fields that hold
-- one constant each (`rule`, `countBoostApplied`, `recomputedStoredConfidence`) are left out; the
-- checks that a confidence is known and `valid` is a Boolean hold by type.
pub mod Selection
pub mod Verdicts
pub mod Laws
use throughline.Prelude.{
  max, ℕ, zero, suc, Bool, true, false, ◌&&◌, ◌||◌, not, Option, none, some, List, [], ◌∷◌, Result,
  ok, err, ◌>>=◌, ◌>>◌, throw_if, leb, ltb, ◌==◌, length, map, if◌then◌else◌, JsString, includes,
  sort,
}
use throughline.Truth.Validation.{Fault, contract, require_uuid_v7, require_canonical_rationale}

pub data Confidence : Type 0 where
  unknown weak strong confirmed : Confidence

-- CONFIDENCE_RANK
unfoldable pub confidence_rank : Confidence → ℕ
confidence_rank unknown = 0
confidence_rank weak = 1
confidence_rank strong = 2
confidence_rank confirmed = 3

pub record SelectedClaim : Type 0 where
  pub claim_id : JsString
  pub confidence : Confidence
  pub valid : Bool

-- CONFIDENCE_LOWERING_REASON_CODES
pub data LoweringCode : Type 0 where
  conservative_human_judgment evidence_quality residual_uncertainty : LoweringCode

pub record LoweringReason : Type 0 where
  pub code : LoweringCode
  pub rationale : JsString

pub record LoweringRequest : Type 0 where
  pub confidence : Confidence
  pub reason : LoweringReason

pub record Lowering : Type 0 where
  pub from : Confidence
  pub to : Confidence
  pub reason : LoweringReason

pub record ConfidenceResult : Type 0 where
  pub confidence : Confidence
  pub strongest_supporting_confidence : Confidence
  pub strongest_supporting_claim_ids : List JsString
  pub selected_valid_claim_ids : List JsString
  pub excluded_invalid_claim_ids : List JsString
  pub valid_support_count : ℕ
  pub human_lowered : Bool
  pub lowering : Option Lowering

-- The `map` of `validateClaims`, with the set of identifiers seen.
unfoldable pub validate_each :
    List JsString → List SelectedClaim → Result Fault (List SelectedClaim)
validate_each seen [] = ok []
validate_each seen (claim ∷ claims) = do
  claim_id ← require_uuid_v7 claim.claim_id
  throw_if (includes seen claim_id) contract
  rest ← validate_each (claim_id ∷ seen) claims
  ok (claim ∷ rest)

unfoldable pub validate_claims : List SelectedClaim → Bool → Result Fault (List SelectedClaim)
validate_claims claims allow_empty = do
  throw_if ((not allow_empty && length claims == 0) || ltb 100 (length claims)) contract
  validate_each [] claims

unfoldable pub valid_claims : List SelectedClaim → List SelectedClaim
valid_claims [] = []
valid_claims (c ∷ cs) = if c.valid then c ∷ valid_claims cs else valid_claims cs

unfoldable pub invalid_claims : List SelectedClaim → List SelectedClaim
invalid_claims [] = []
invalid_claims (c ∷ cs) = if c.valid then invalid_claims cs else c ∷ invalid_claims cs

-- `Math.max(...claims.map(({ confidence }) => CONFIDENCE_RANK[confidence]))`, of a non-empty list
unfoldable pub strongest_rank : List SelectedClaim → ℕ
strongest_rank [] = 0
strongest_rank (c ∷ cs) = max (confidence_rank c.confidence) (strongest_rank cs)

unfoldable pub confidence_at_rank : ℕ → Result Fault Confidence
confidence_at_rank zero = ok unknown
confidence_at_rank (suc zero) = ok weak
confidence_at_rank (suc (suc zero)) = ok strong
confidence_at_rank (suc (suc (suc zero))) = ok confirmed
confidence_at_rank (suc (suc (suc (suc n)))) = err contract

unfoldable pub ids_at : Confidence → List SelectedClaim → List JsString
ids_at c [] = []
ids_at c (claim ∷ claims) =
    if confidence_rank claim.confidence == confidence_rank c
    then claim.claim_id ∷ ids_at c claims
    else ids_at c claims

abbrev pub claim_ids : List SelectedClaim → List JsString
claim_ids claims = map (λ (c : SelectedClaim). c.claim_id) claims

-- `parseTruthLifecycleReason("confidence_lowering", reason)` of a reason with a known code
unfoldable pub parse_lowering_reason :
    (nfc : JsString → JsString) → LoweringReason → Result Fault LoweringReason
parse_lowering_reason nfc reason = do
  rationale ← require_canonical_rationale nfc reason.rationale
  ok (record { code = reason.code; rationale = rationale })

-- The result without lowering.
unfoldable pub unlowered : List SelectedClaim → Confidence → ConfidenceResult
unlowered claims strongest = record {
  confidence = strongest;
  strongest_supporting_confidence = strongest;
  strongest_supporting_claim_ids = sort (ids_at strongest (valid_claims claims));
  selected_valid_claim_ids = sort (claim_ids (valid_claims claims));
  excluded_invalid_claim_ids = sort (claim_ids (invalid_claims claims));
  valid_support_count = length (valid_claims claims);
  human_lowered = false;
  lowering = none;
}

-- The result with the confidence that was asked for.
unfoldable pub lowered : ConfidenceResult → Confidence → LoweringReason → ConfidenceResult
lowered result to reason = record result {
  confidence = to;
  human_lowered = true;
  lowering =
      some (record { from = result.strongest_supporting_confidence; to = to; reason = reason });
}

unfoldable pub apply_lowering :
    (nfc : JsString → JsString)
    → Option LoweringRequest
    → ConfidenceResult
    → Result Fault ConfidenceResult
unfolding lowered
apply_lowering nfc none result = ok result
apply_lowering nfc (some requested) result = do
  throw_if
      (leb (confidence_rank result.strongest_supporting_confidence)
        (confidence_rank requested.confidence))
      contract
  reason ← parse_lowering_reason nfc requested.reason
  ok (lowered result requested.confidence reason)

unfoldable pub calculate_accepted_fact_confidence :
    (nfc : JsString → JsString)
    → List SelectedClaim
    → Option LoweringRequest
    → Result Fault ConfidenceResult
calculate_accepted_fact_confidence nfc selected_claims requested_lowering = do
  claims ← validate_claims selected_claims false
  throw_if (length (valid_claims claims) == 0) contract
  strongest ← confidence_at_rank (strongest_rank (valid_claims claims))
  apply_lowering nfc requested_lowering (unlowered claims strongest)

pub data Disposition : Type 0 where
  sustained review_required : Disposition

pub record SupportAssessment : Type 0 where
  pub recorded_confidence : Confidence
  pub strongest_active_support : Option Confidence
  pub disposition : Disposition
  pub active_valid_claim_ids : List JsString

unfoldable pub strongest_active : List SelectedClaim → Result Fault (Option Confidence)
strongest_active [] = ok none
strongest_active (c ∷ cs) = do
  strongest ← confidence_at_rank (strongest_rank (c ∷ cs))
  ok (some strongest)

unfoldable pub is_sustained : Confidence → Option Confidence → Disposition
is_sustained recorded none = review_required
is_sustained recorded (some strongest) =
    if leb (confidence_rank recorded) (confidence_rank strongest)
    then sustained
    else review_required

unfoldable pub assess_recorded_confidence_support :
    Confidence → List SelectedClaim → Result Fault SupportAssessment
assess_recorded_confidence_support recorded active_claims = do
  claims ← validate_claims active_claims true
  strongest ← strongest_active (valid_claims claims)
  ok (record {
    recorded_confidence = recorded;
    strongest_active_support = strongest;
    disposition = is_sustained recorded strongest;
    active_valid_claim_ids = sort (claim_ids (valid_claims claims));
  })
