-- ===== src/Truth/Confidence/Laws.antt =====
-- The confidence of an accepted fact against its supporting claims
-- (packages/truth-ledger/src/confidence.ts).
use mathlib.Core.List.{Memᴰ, Perm, perm_middle}
use mathlib.Core.List.Perm
use throughline.Prelude.{
  All-Mem, throw_if, ◌==◌, ℕ, zero, suc, ◌≤◌, ◌<◌, ◌≡◌, refl, sym, ◌∙◌, ◌↔◌, inl, inr, true, false,
  Option, none, some, List, [], ◌∷◌, ◌++◌, ok, All, length, arith, JsString, Bool-cases, sort-All,
  sort-perm, bind_value, Result-cases, leb,
}
use throughline.Truth.Validation.{contract}
use throughline.Truth.Confidence.{
  SelectedClaim, Confidence, ConfidenceResult, LoweringRequest, validate_claims, claim_ids,
  confidence_rank, strongest_rank, confidence_at_rank, valid_claims, invalid_claims, unlowered,
  lowered, apply_lowering, parse_lowering_reason, calculate_accepted_fact_confidence,
  SupportAssessment, sustained, strongest_active, is_sustained, assess_recorded_confidence_support,
}
use throughline.Truth.Confidence.Selection.{
  IsSelection, validate_claims_sound, validate_claims_complete,
}
use throughline.Truth.Confidence.Verdicts.{
  HasVerdict, invalid_claims-HasVerdict, valid_claims-HasVerdict,
}

strongest_rank-le : (claims : List SelectedClaim) → strongest_rank claims ≤ 3
unfolding strongest_rank confidence_rank
strongest_rank-le [] = omega arith
strongest_rank-le (c ∷ cs) = ground (arith, strongest_rank-le cs)

confidence_at_rank-ok :
    (n : ℕ) → n ≤ 3 → (c : Confidence) × (confidence_at_rank n ≡ ok c) × (confidence_rank c ≡ n)
unfolding confidence_at_rank confidence_rank
confidence_at_rank-ok zero h = (Confidence.unknown, refl, refl)
confidence_at_rank-ok (suc zero) h = (Confidence.weak, refl, refl)
confidence_at_rank-ok (suc (suc zero)) h = (Confidence.strong, refl, refl)
confidence_at_rank-ok (suc (suc (suc zero))) h = (Confidence.confirmed, refl, refl)
confidence_at_rank-ok (suc (suc (suc (suc n)))) h = absurd (omega arith)

confidence_rank_injective : (a b : Confidence) → confidence_rank a ≡ confidence_rank b → a ≡ b
unfolding confidence_rank
confidence_rank_injective a b h = ground arith

strongest_rank-All :
    (claims : List SelectedClaim) (n : ℕ)
    → strongest_rank claims ≤ n
    → All (λ (c : SelectedClaim). confidence_rank c.confidence ≤ n) claims
unfolding strongest_rank
strongest_rank-All [] n h = tt
strongest_rank-All (c ∷ cs) n h = (omega arith, strongest_rank-All cs n (omega arith))

strongest_rank-attained :
    (claims : List SelectedClaim)
    → 0 < length claims
    → (c : SelectedClaim) × Memᴰ c claims × (confidence_rank c.confidence ≡ strongest_rank claims)
unfolding strongest_rank
strongest_rank-attained [] h = absurd (omega arith)
strongest_rank-attained (c ∷ []) h = (c, Memᴰ.head refl, omega arith)
strongest_rank-attained (c ∷ d ∷ ds) h =
    let (e, m, p) = strongest_rank-attained (d ∷ ds) (omega arith) in
    elim (Bool-cases (leb (strongest_rank (d ∷ ds)) (confidence_rank c.confidence))) [
      | inl le ↦ (c, Memᴰ.head refl, ground arith)
      | inr gt ↦ (e, Memᴰ.tail m, ground (arith, p))
    ]

-- `top` is the confidence of one of the claims, and no claim has a higher one.
pub record IsStrongest (top : Confidence) (claims : List SelectedClaim) : Type 0 where
  pub attained : (c : SelectedClaim) × Memᴰ c claims × (c.confidence ≡ top)
  pub above : All (λ (c : SelectedClaim). confidence_rank c.confidence ≤ confidence_rank top) claims

pub strongest_rank-IsStrongest :
    (claims : List SelectedClaim) (top : Confidence)
    → 0 < length claims
    → confidence_at_rank (strongest_rank claims) ≡ ok top
    → IsStrongest top claims
strongest_rank-IsStrongest claims top h e =
    let (c, e', r) = confidence_at_rank-ok (strongest_rank claims) (strongest_rank-le claims) in
    let rank : confidence_rank top ≡ strongest_rank claims = rw (← r) (ground (arith, e, e')) in
    let (d, m, p) = strongest_rank-attained claims h in
    record {
      attained = (d, m, confidence_rank_injective d.confidence top (p ∙ sym rank));
      above = strongest_rank-All claims (confidence_rank top) (omega arith);
    }

-- The stages of a call that returns a result.
calculate-stages :
    (nfc : JsString → JsString) (claims : List SelectedClaim) (lowering : Option LoweringRequest)
    (r : ConfidenceResult)
    → calculate_accepted_fact_confidence nfc claims lowering ≡ ok r
    → IsSelection claims
      × (0 < length (valid_claims claims))
      × ((top : Confidence) × (confidence_at_rank (strongest_rank (valid_claims claims)) ≡ ok top)
          × (apply_lowering nfc lowering (unlowered claims top) ≡ ok r))
unfolding calculate_accepted_fact_confidence
calculate-stages nfc claims lowering r h =
    let (cs, e, h1) = bind_value (validate_claims claims false) _ h in
    let (same, selection, _) = validate_claims_sound claims false cs e in
    let h2 = rw same at h1 in
    let (_, some_valid, h3) =
      bind_value (throw_if (length (valid_claims claims) == 0) contract) _ h2 in
    let (top, at_top, h4) =
      bind_value (confidence_at_rank (strongest_rank (valid_claims claims))) _ h3 in
    (selection, ground (arith, some_valid), (top, at_top, h4))

-- What the request for a lower confidence makes of the result.
abbrev pub FollowsRequest : Option LoweringRequest → ConfidenceResult → Type 0
FollowsRequest none r =
    (r.confidence ≡ r.strongest_supporting_confidence)
    × (r.human_lowered ≡ false)
    × (r.lowering ≡ none)
FollowsRequest (some q) r =
    (r.confidence ≡ q.confidence)
    × (r.human_lowered ≡ true)
    × (confidence_rank q.confidence < confidence_rank r.strongest_supporting_confidence)

-- What lowering leaves as it was.
abbrev SameSupport : ConfidenceResult → ConfidenceResult → Type 0
SameSupport r s =
    (r.strongest_supporting_confidence ≡ s.strongest_supporting_confidence)
    × (r.selected_valid_claim_ids ≡ s.selected_valid_claim_ids)
    × (r.excluded_invalid_claim_ids ≡ s.excluded_invalid_claim_ids)
    × (r.valid_support_count ≡ s.valid_support_count)

apply_lowering-follows :
    (nfc : JsString → JsString) (lowering : Option LoweringRequest) (claims : List SelectedClaim)
    (top : Confidence) (r : ConfidenceResult)
    → apply_lowering nfc lowering (unlowered claims top) ≡ ok r
    → FollowsRequest lowering r × SameSupport r (unlowered claims top)
unfolding apply_lowering unlowered
apply_lowering-follows nfc none claims top r h = ground arith
apply_lowering-follows nfc (some q) claims top r h =
    elim (Result-cases (parse_lowering_reason nfc q.reason)) [
      | inl (reason, e) ↦ ground (arith, e)
      | inr (fault, e) ↦ ground (arith, e)
    ]

pub valid-invalid-perm :
    (claims : List SelectedClaim)
    → Perm (claim_ids (valid_claims claims) ++ claim_ids (invalid_claims claims)) (claim_ids claims)
unfolding valid_claims invalid_claims
valid-invalid-perm [] = Perm.refl _
valid-invalid-perm (c ∷ cs) = elim (Bool-cases c.valid) [
  | inl v ↦ rw (v, valid_claims, invalid_claims) (Perm.cons c.claim_id (valid-invalid-perm cs))
  | inr v ↦
      rw (v, valid_claims, invalid_claims)
        (Perm.trans (perm_middle (claim_ids (valid_claims cs)) (claim_ids (invalid_claims cs)))
          (Perm.cons c.claim_id (valid-invalid-perm cs)))
]

-- A call that returns `r`: the strongest support is the confidence of a valid claim and bounds that
-- of every valid claim; the confidence of the fact is that one, or the requested one if that is
-- strictly lower; the identifiers reported as valid and as excluded are together those of the
-- selection, each as often, each of the former that of a claim of the selection that is valid, and
-- each of the latter that of one that is not; and as many claims support the fact as are valid.
pub calculate_accepted_fact_confidence_lem :
    (nfc : JsString → JsString) (claims : List SelectedClaim) (lowering : Option LoweringRequest)
    (r : ConfidenceResult)
    → calculate_accepted_fact_confidence nfc claims lowering ≡ ok r
    → IsStrongest r.strongest_supporting_confidence (valid_claims claims)
      × FollowsRequest lowering r
      × Perm (r.selected_valid_claim_ids ++ r.excluded_invalid_claim_ids) (claim_ids claims)
      × All (HasVerdict true claims) r.selected_valid_claim_ids
      × All (HasVerdict false claims) r.excluded_invalid_claim_ids
      × (r.valid_support_count ≡ length (valid_claims claims))
unfolding unlowered
calculate_accepted_fact_confidence_lem nfc claims lowering r h =
    let (_, pos, (top, at_top, lowered)) = calculate-stages nfc claims lowering r h in
    let (follows, (same_top, same_valid, same_excluded, same_count)) =
      apply_lowering-follows nfc lowering claims top r lowered in
    (
      rw same_top (strongest_rank-IsStrongest (valid_claims claims) top pos at_top),
      follows,
      rw (same_valid, same_excluded)
          (Perm.trans (Perm.append (sort-perm _) (sort-perm _)) (valid-invalid-perm claims)),
      rw same_valid (sort-All (HasVerdict true claims) _ (valid_claims-HasVerdict claims)),
      rw same_excluded (sort-All (HasVerdict false claims) _ (invalid_claims-HasVerdict claims)),
      same_count,
    )

leb_of_lt : (a b : ℕ) → a < b → leb b a ≡ false
leb_of_lt a b h = ground arith

length-valid_claims : (claims : List SelectedClaim) → length (valid_claims claims) ≤ length claims
unfolding valid_claims
length-valid_claims [] = omega arith
length-valid_claims (c ∷ cs) = ground (arith, length-valid_claims cs)

-- A request that `top` allows: strictly lower, with a rationale in canonical form.
abbrev pub IsLowering : (nfc : JsString → JsString) → Option LoweringRequest → Confidence → Type 0
IsLowering nfc none top = Unit
IsLowering nfc (some q) top =
    (confidence_rank q.confidence < confidence_rank top)
    × (parse_lowering_reason nfc q.reason ≡ ok q.reason)

apply_lowering_complete :
    (nfc : JsString → JsString) (lowering : Option LoweringRequest) (claims : List SelectedClaim)
    (top : Confidence)
    → IsLowering nfc lowering top
    → (r : ConfidenceResult) × (apply_lowering nfc lowering (unlowered claims top) ≡ ok r)
unfolding apply_lowering unlowered
apply_lowering_complete nfc none claims top h = (unlowered claims top, refl)
apply_lowering_complete nfc (some q) claims top (lt, e) =
    (lowered (unlowered claims top) q.confidence q.reason, ground (arith, e, lt))

-- A selection of 1 to 100 claims with distinct version-7 UUIDs, of which one is valid, is given a
-- confidence when nothing lower is requested, or when the request is strictly below every
-- confidence that bounds the valid claims and its rationale is canonical.
pub calculate_accepted_fact_confidence_complete :
    (nfc : JsString → JsString) (claims : List SelectedClaim) (lowering : Option LoweringRequest)
    → IsSelection claims
    → 0 < length (valid_claims claims)
    → ((top : Confidence) → IsStrongest top (valid_claims claims) → IsLowering nfc lowering top)
    → (r : ConfidenceResult) × (calculate_accepted_fact_confidence nfc claims lowering ≡ ok r)
unfolding calculate_accepted_fact_confidence
calculate_accepted_fact_confidence_complete nfc claims lowering s pos allowed =
    let (top, at_top, _) =
      confidence_at_rank-ok (strongest_rank (valid_claims claims))
        (strongest_rank-le (valid_claims claims)) in
    let strongest = strongest_rank-IsStrongest (valid_claims claims) top pos at_top in
    let (r, lowered) = apply_lowering_complete nfc lowering claims top (allowed top strongest) in
    let selected =
      validate_claims_complete claims false s (inr (omega (arith, length-valid_claims claims))) in
    (r, ground (arith, selected, at_top, lowered, pos))

not-Memᴰ-nil : {c : SelectedClaim} → Memᴰ c [] → ⊥
not-Memᴰ-nil m = elim m [ ]

is_sustained_iff :
    (recorded : Confidence) (claims : List SelectedClaim) (o : Option Confidence)
    → strongest_active claims ≡ ok o
    → (is_sustained recorded o ≡ sustained) ↔ (
        (c : SelectedClaim) × Memᴰ c claims
        × (confidence_rank recorded ≤ confidence_rank c.confidence))
unfolding strongest_active is_sustained
is_sustained_iff recorded [] none h = (λ e. cc, λ w. absurd (not-Memᴰ-nil w.1))
is_sustained_iff recorded [] (some top) h = cc
is_sustained_iff recorded (c ∷ cs) none h =
    let (top, at_top, h1) = bind_value (confidence_at_rank (strongest_rank (c ∷ cs))) _ h in cc
is_sustained_iff recorded (c ∷ cs) (some top) h =
    let (top', at_top, h1) = bind_value (confidence_at_rank (strongest_rank (c ∷ cs))) _ h in
    let same : top' ≡ top = cc in
    let strongest = rw same at (strongest_rank-IsStrongest (c ∷ cs) top' (omega arith) at_top) in
    let (d, m, e) = strongest.attained in
    (
      λ sustained_. (d, m, rw e (ground arith)),
      λ w. let below = All-Mem _ (c ∷ cs) strongest.above w.1 in ground (arith, below, w.2),
    )

-- Of the claims given as active, a recorded confidence is sustained exactly when some valid claim
-- is at least as confident.
pub assess_recorded_confidence_support_lem :
    (recorded : Confidence) (claims : List SelectedClaim) (a : SupportAssessment)
    → assess_recorded_confidence_support recorded claims ≡ ok a
    → (a.recorded_confidence ≡ recorded)
      × ((a.disposition ≡ sustained) ↔ (
          (c : SelectedClaim) × Memᴰ c (valid_claims claims)
          × (confidence_rank recorded ≤ confidence_rank c.confidence)))
unfolding assess_recorded_confidence_support
assess_recorded_confidence_support_lem recorded claims a h =
    let (cs, e, h1) = bind_value (validate_claims claims true) _ h in
    let same = (validate_claims_sound claims true cs e).0 in
    let h2 = rw same at h1 in
    let (o, active, h3) = bind_value (strongest_active (valid_claims claims)) _ h2 in
    let decided : a.disposition ≡ is_sustained recorded o = ground (arith, h3) in
    (ground (arith, h3), rw decided (is_sustained_iff recorded (valid_claims claims) o active))
