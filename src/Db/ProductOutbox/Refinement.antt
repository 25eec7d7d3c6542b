-- ===== src/Db/ProductOutbox/Refinement.antt =====
-- The updates of the product outbox against the constraints and the trigger of its table
-- (product-outbox-repository.ts and 0003_b1_0_canonical_product_outbox.sql).
use throughline.Prelude.{
  ℕ, ◌≤◌, ◌<◌, ◌≡◌, refl, Bool, true, false, ◌&&◌, some, List, [], ◌∷◌, ok, arith, leb, ltb, all,
  length, JsString,
}
use throughline.Core.ScalarText.{is_lead, is_trail, array_from}
use throughline.Core.ScalarText.Laws.{array_from-pos}
use throughline.Core.Whitespace.{code_point}
use throughline.Db.ProductOutbox.{
  Scope, Handle, Row, is_alnum, is_owner_char, is_safe_owner, is_safe_code, is_claim_token,
  head_tail, has_control_characters, validate_message_id,
}
use throughline.Db.ProductOutbox.Claim.{
  is_interrupted, give_up, is_eligible, claim_row, ClaimOptions,
}
use throughline.Db.ProductOutbox.Publish.{is_claim_of, holds_claim, mark_published}
use throughline.Db.ProductOutbox.Failure.{retry_row, terminal_row, FailureKind}
use throughline.Db.ProductOutbox.Contract.{row_checks, transition_allowed, plain_text}
use throughline.Db.ProductOutbox.Frame.{RowStep}

length-array_from-le : (s : JsString) → length (array_from s) ≤ length s
unfolding array_from
length-array_from-le [] = omega arith
length-array_from-le (u ∷ []) = omega arith
length-array_from-le (u ∷ v ∷ s) =
    ground (arith, length-array_from-le s, length-array_from-le (v ∷ s))

is_printable : ℕ → Bool
is_printable u = leb 32 u && ltb u 127

-- A text of printable ASCII characters has no control characters.
printable_plain : (s : JsString) → all is_printable s ≡ true → has_control_characters s ≡ false
unfolding is_printable has_control_characters array_from is_lead is_trail code_point
printable_plain [] h = refl
printable_plain (u ∷ []) h = ground arith
printable_plain (u ∷ v ∷ s) h = ground (arith, printable_plain (v ∷ s))

all_weaken :
    (p q : ℕ → Bool) (s : List ℕ)
    → ((u : ℕ) → p u ≡ true → q u ≡ true)
    → all p s ≡ true
    → all q s ≡ true
all_weaken p q [] h a = refl
all_weaken p q (u ∷ s) h a = ground (arith, h u, all_weaken p q s h)

owner_char_printable : (u : ℕ) → is_owner_char u ≡ true → is_printable u ≡ true
unfolding is_owner_char is_printable
owner_char_printable u h = ground arith

alnum_printable : (u : ℕ) → is_alnum u ≡ true → is_printable u ≡ true
unfolding is_alnum is_printable
alnum_printable u h = ground arith

safe_owner_printable :
    (s : JsString)
    → is_safe_owner s ≡ true
    → (all is_printable s ≡ true) × (1 ≤ length s) × (length s ≤ 128)
unfolding is_safe_owner head_tail
safe_owner_printable [] h = cc
safe_owner_printable (u ∷ s) h =
    ground (arith, alnum_printable u, all_weaken is_owner_char is_printable s owner_char_printable)

safe_owner_plain : (s : JsString) → is_safe_owner s ≡ true → plain_text 128 (some s) ≡ true
safe_owner_plain s h =
    let (printable, pos, short) = safe_owner_printable s h in
    ground (
      arith,
      printable_plain s printable,
      length-array_from-le s,
      array_from-pos s (omega arith),
      pos,
      short,
    )

pub validate_message_id_plain :
    (s : JsString) {t : JsString}
    → validate_message_id s ≡ ok t
    → (t ≡ s) × (plain_text 200 (some s) ≡ true)
unfolding validate_message_id
validate_message_id_plain s h = ground (arith, length-array_from-le s, array_from-pos s)

module _ {now : ℕ} {row : Row} (checked : row_checks row ≡ true) where
  pub give_up-RowStep :
      (scope : Scope) → is_interrupted scope now row ≡ true → RowStep now row (give_up now row)
  unfolding give_up is_interrupted row_checks transition_allowed is_safe_code
  give_up-RowStep scope h = ground arith

  pub claim_row-RowStep :
      (scope : Scope) (options : ClaimOptions) (token : JsString) (at : ℕ)
      → is_eligible scope at row ≡ true
      → at ≤ now
      → is_safe_owner options.claimed_by ≡ true
      → 0 < options.lease_seconds
      → is_claim_token token ≡ true
      → RowStep now row (claim_row options token at row)
  unfolding claim_row is_eligible row_checks transition_allowed
  claim_row-RowStep scope options token at e p owner lease t =
      ground (arith, safe_owner_plain options.claimed_by owner)

  pub mark_published-RowStep :
      (handle : Handle) (message_id : JsString)
      → holds_claim handle now row ≡ true
      → plain_text 200 (some message_id) ≡ true
      → RowStep now row (mark_published now message_id row)
  unfolding mark_published holds_claim is_claim_of row_checks transition_allowed
  mark_published-RowStep handle message_id h m = ground arith

  pub retry_row-RowStep :
      (handle : Handle) (code : JsString) (delay : ℕ)
      → is_claim_of handle row ≡ true
      → handle.publication_attempt < 6
      → is_safe_code code ≡ true
      → 0 < delay
      → RowStep now row (retry_row code now delay row)
  unfolding retry_row is_claim_of row_checks transition_allowed
  retry_row-RowStep handle code delay h a c d = ground arith

  pub terminal_row-RowStep :
      (handle : Handle) (kind : FailureKind) (code : JsString)
      → is_claim_of handle row ≡ true
      → handle.publication_attempt ≡ 6
      → is_safe_code code ≡ true
      → RowStep now row (terminal_row kind code now row)
  unfolding terminal_row is_claim_of row_checks transition_allowed
  terminal_row-RowStep handle kind code h a c = ground arith
