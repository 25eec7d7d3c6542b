-- ===== src/Truth/AcceptedFact/Laws.antt =====
-- What an accepted fact says of the claims that it is made of (packages/truth-ledger/src/types.ts).
use mathlib.Core.Path.{subst}
use mathlib.Core.List.{Perm}
use throughline.Prelude.{
  ℕ, ◌≤◌, ◌≡◌, refl, Bool, true, false, not, Option, List, [], ◌∷◌, ok, throw_if, throw_if_ok,
  check_value, bind_value, ok_injective, All, all, length, JsString, sort-perm, arith, ltb,
  Bool-cases, inl, inr, ◌⊎◌, ◌↔◌, sym, ◌∙◌, and_true,
}
use throughline.Core.AccessClass.{AccessClass, can_read_access_class}
use throughline.Core.AccessClass.Laws.{max_access_class_lem}
use throughline.Truth.Validation.{contract, is_uuid_v7}
use throughline.Truth.Confidence.{ConfidenceResult, calculate_accepted_fact_confidence}
use throughline.Truth.AcceptedFact.{AcceptedFact, Claim, FactInput, passes}
use throughline.Truth.AcceptedFact.Construct.{
  check_claims, check_first, claim_classes, construct_accepted_fact, construct_from, ends_early,
  fact_class, fact_of, has_fact_formats, is_authorized, selected, supersedes_itself, supporting_ids,
}
use throughline.Truth.AcceptedFact.Supports.{Fresh, Supports, check_claims-All}

not-false : (b : Bool) → not b ≡ false → b ≡ true
not-false b h = ground (arith, h)

claims_cases :
    (claims : List Claim) → (claims ≡ []) ⊎ ((c : Claim) × (cs : List Claim) × (claims ≡ c ∷ cs))
claims_cases [] = inl refl
claims_cases (c ∷ cs) = inr (c, cs, refl)

few_claims : (input : FactInput) → ltb 100 (length input.claims) ≡ false → length input.claims ≤ 100
few_claims input h = ground (arith, h)

-- The class of a fact may be read exactly if all the classes that went into it may.
pub fact_class-reads :
    (input : FactInput) {access_class : AccessClass} (ceiling : AccessClass)
    → fact_class input ≡ ok access_class
    → can_read_access_class ceiling access_class
      ≡ all (can_read_access_class ceiling) (
          input.subject_access_class
          ∷ input.explicit_policy_access_class
          ∷ claim_classes input.claims)
unfolding fact_class
fact_class-reads input {access_class} ceiling h =
    let (top, at_top, member, above, reads) =
      max_access_class_lem input.subject_access_class
        (input.explicit_policy_access_class ∷ claim_classes input.claims) in
    let same : top ≡ access_class = ground (arith, at_top, h) in
    subst
      (λ c.
        can_read_access_class ceiling c
        ≡ all (can_read_access_class ceiling) (
            input.subject_access_class
            ∷ input.explicit_policy_access_class
            ∷ claim_classes input.claims))
      same (reads ceiling)

-- What a ceiling has to read of a claim: the claim, and its evidence.
abbrev pub ReadsClaim : AccessClass → Claim → Type 0
ReadsClaim ceiling claim =
    (can_read_access_class ceiling claim.access_class ≡ true)
    × (can_read_access_class ceiling claim.source_span.effective_access_class ≡ true)

claim_classes_iff :
    (ceiling : AccessClass) (claims : List Claim)
    → (all (can_read_access_class ceiling) (claim_classes claims) ≡ true)
      ↔ All (ReadsClaim ceiling) claims
unfolding claim_classes
claim_classes_iff ceiling [] = (λ _. tt, λ _. refl)
claim_classes_iff ceiling (c ∷ cs) =
    let rest = claim_classes_iff ceiling cs in
    (
      λ h.
          let (own, more) = and_true h in
          let (evidence, others) = and_true more in ((own, evidence), rest.0 others),
      λ h. let others = rest.1 h.1 in rw (h.0.0, h.0.1, others) refl,
    )

module _ (nfc : JsString → JsString) (parse_date : JsString → Option ℕ) where
  -- An accepted fact and what it was made of.
  pub record IsFactOf (input : FactInput) (fact : AcceptedFact) : Type 0 where
    pub first : Claim
    pub others : List Claim
    pub claims : input.claims ≡ first ∷ others
    pub few : length input.claims ≤ 100
    pub fresh : Fresh [] input.claims
    pub supported : All (Supports nfc parse_date first) input.claims
    pub supporting : Perm fact.supporting_claim_ids (supporting_ids input.claims)
    pub subject_id : fact.subject_id ≡ first.subject_id
    pub canonical_value : fact.canonical_value ≡ first.canonical_value
    pub normalized_text : fact.normalized_text ≡ first.normalized_text
    pub authorized :
        is_authorized fact.subject_type fact.acceptance_scope fact.authority_basis ≡ true
    pub replaces_other : supersedes_itself fact.supersedes_fact_id fact.id ≡ false
    pub decided :
        calculate_accepted_fact_confidence nfc (selected input.claims) input.confidence_lowering
        ≡ ok fact.confidence_decision
    pub classed : fact_class input ≡ ok fact.access_class

  made_of :
      (input : FactInput) (first : Claim) (others : List Claim) {decision : ConfidenceResult}
      {access_class : AccessClass} (fact : AcceptedFact)
      → input.claims ≡ first ∷ others
      → length input.claims ≤ 100
      → supersedes_itself input.supersedes_fact_id input.id ≡ false
      → check_claims nfc parse_date first [] input.claims ≡ ok tt
      → is_authorized first.subject_type input.acceptance_scope input.authority_basis ≡ true
      → calculate_accepted_fact_confidence nfc (selected input.claims) input.confidence_lowering
        ≡ ok decision
      → fact_class input ≡ ok access_class
      → fact_of nfc parse_date input first decision access_class ≡ fact
      → IsFactOf input fact
  unfolding fact_of
  made_of input first others fact claims few other checked authorized decided classed same =
      let (fresh, supported) = check_claims-All nfc parse_date first [] input.claims checked in
      subst (IsFactOf input) same (record {
        first = first;
        others = others;
        claims = claims;
        few = few;
        fresh = fresh;
        supported = supported;
        supporting = sort-perm (supporting_ids input.claims);
        subject_id = refl;
        canonical_value = refl;
        normalized_text = refl;
        authorized = authorized;
        replaces_other = other;
        decided = decided;
        classed = classed;
      })

  construct_from-IsFactOf :
      (input : FactInput) (first : Claim) (others : List Claim) (fact : AcceptedFact)
      → input.claims ≡ first ∷ others
      → length input.claims ≤ 100
      → construct_from nfc parse_date input first ≡ ok fact
      → IsFactOf input fact
  unfolding construct_from
  construct_from-IsFactOf input first others fact claims few h =
      let (id, h1) = check_value (throw_if (not (is_uuid_v7 input.id)) contract) _ h in
      let (superseded, h2) =
        check_value (throw_if (not (passes is_uuid_v7 input.supersedes_fact_id)) contract) _ h1 in
      let (other, h3) =
        check_value (throw_if (supersedes_itself input.supersedes_fact_id input.id) contract) _
          h2 in
      let (texts, h4) = check_value (check_first nfc parse_date first) _ h3 in
      let (checked, h5) = check_value (check_claims nfc parse_date first [] input.claims) _ h4 in
      let (times, h6) =
        check_value (throw_if (ends_early nfc parse_date first.valid_from first.valid_to) contract)
          _ h5 in
      let refused =
        not (is_authorized first.subject_type input.acceptance_scope input.authority_basis) in
      let (authorized, h7) = check_value (throw_if refused contract) _ h6 in
      let (decision, decided, h8) =
        bind_value
          (calculate_accepted_fact_confidence nfc (selected input.claims) input.confidence_lowering)
          _ h7 in
      let (access_class, classed, h9) = bind_value (fact_class input) _ h8 in
      let (formats, h10) =
        check_value (throw_if (not (has_fact_formats nfc parse_date input)) contract) _ h9 in
      made_of input first others fact claims few
        (throw_if_ok (supersedes_itself input.supersedes_fact_id input.id) contract other) checked
        (not-false _ (throw_if_ok refused contract authorized)) decided classed (ok_injective h10)

  -- An accepted fact is made of 1 to 100 claims, no two of them with the same identifier. Each is
  -- open and has the place, subject, predicate, texts and times of validity of the first one, and a
  -- verified span of evidence about that subject in that place. The fact has their subject and texts
  -- and lists their identifiers, each once; its authority is the one for its type of subject, it does
  -- not supersede itself, its confidence is the one calculated from the claims, and its class the
  -- one combined from theirs.
  pub construct-IsFactOf :
      (input : FactInput) (fact : AcceptedFact)
      → construct_accepted_fact nfc parse_date input ≡ ok fact
      → IsFactOf input fact
  unfolding construct_accepted_fact
  construct-IsFactOf input fact h = elim (claims_cases input.claims) [
    | inl e ↦ absurd (ground (arith, e, h))
    | inr (first, others, e) ↦ elim (Bool-cases (ltb 100 (length input.claims))) [
      | inl many ↦ absurd (ground (arith, e, many, h))
      | inr few ↦
          construct_from-IsFactOf input first others fact e (few_claims input few)
            (ground (arith, e, few, h))
    ]
  ]

  -- A ceiling may read an accepted fact exactly if it may read the class of the subject, the one that
  -- the policy asks for, and of each supporting claim its own class and the effective class of its
  -- span of evidence.
  pub construct-reads :
      (input : FactInput) (fact : AcceptedFact) (ceiling : AccessClass)
      → construct_accepted_fact nfc parse_date input ≡ ok fact
      → (can_read_access_class ceiling fact.access_class ≡ true) ↔ (
          (can_read_access_class ceiling input.subject_access_class ≡ true)
          × (can_read_access_class ceiling input.explicit_policy_access_class ≡ true)
          × All (ReadsClaim ceiling) input.claims)
  construct-reads input fact ceiling h =
      let same = fact_class-reads input ceiling (construct-IsFactOf input fact h).classed in
      let claims = claim_classes_iff ceiling input.claims in
      (
        λ readable.
            let open_ = sym same ∙ readable in
            let (subject, rest) = and_true open_ in
            let (policy, last) = and_true rest in (subject, policy, claims.0 last),
        λ parts. let last = claims.1 parts.2 in same ∙ rw (parts.0, parts.1, last) refl,
      )
