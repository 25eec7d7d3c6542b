-- ===== src/Relay/Errors.antt =====
-- apps/outbox-relay/src/product-relay.ts: `classifyProductSqsError` and the code it gives to the name
-- of an error. `readErrorName` has chosen the name.
pub mod Laws
use throughline.Prelude.{
  ℕ, ◌+◌, ◌-◌, Bool, true, false, ◌&&◌, ◌||◌, not, List, [], ◌∷◌, leb, ltb, ◌==◌, any, take, map,
  if◌then◌else◌, JsString, units, str_eq, includes,
}
use throughline.Db.ProductOutbox.Failure.{FailureKind, deterministic, ambiguous, Failed}

unfoldable pub is_upper : ℕ → Bool
is_upper u = leb b'A' u && leb u b'Z'

unfoldable pub is_lower_or_digit : ℕ → Bool
is_lower_or_digit u = (leb b'a' u && leb u b'z') || (leb b'0' u && leb u b'9')

unfoldable pub is_word : ℕ → Bool
unfolding is_upper is_lower_or_digit
is_word u = is_upper u || is_lower_or_digit u

-- `replace(/([a-z0-9])([A-Z])/g, "$1_$2")`: a match ends in an upper-case letter, which begins no
-- other match.
unfoldable pub split_words : JsString → JsString
unfolding is_upper is_lower_or_digit
split_words [] = []
split_words (u ∷ []) = u ∷ []
split_words (u ∷ v ∷ s) =
    let rest = split_words (v ∷ s) in
    if is_lower_or_digit u && is_upper v then u ∷ b'_' ∷ rest else u ∷ rest

-- `replace(/[^A-Za-z0-9]+/g, "_")`; `run` is whether the unit before was part of a match.
unfoldable pub join_others : (run : Bool) → JsString → JsString
unfolding is_word
join_others run [] = []
join_others run (u ∷ s) = elim (is_word u) [
  | true ↦ u ∷ join_others false s
  | false ↦ elim run [ true ↦ join_others true s | false ↦ b'_' ∷ join_others true s ]
]

-- `replace(/^_+|_+$/g, "")`
unfoldable pub strip_start : JsString → JsString
strip_start [] = []
strip_start (u ∷ s) = if u == b'_' then strip_start s else u ∷ s

unfoldable pub strip_end : JsString → JsString
strip_end [] = []
strip_end (u ∷ s) = elim (strip_end s) [ [] ↦ if u == b'_' then [] else u ∷ [] | v ∷ t ↦ u ∷ v ∷ t ]

-- `toLowerCase` of an ASCII unit.
unfoldable pub to_lower : ℕ → ℕ
unfolding is_upper
to_lower u = if is_upper u then u + 32 else u

abbrev pub or_default : JsString → JsString
or_default [] = units "sqs_ambiguous_failure"
or_default (u ∷ s) = u ∷ s

unfoldable pub normalize_error_code : JsString → JsString
unfolding split_words join_others strip_start strip_end to_lower
normalize_error_code name =
    or_default
      (take 100 (map to_lower (strip_end (strip_start (join_others false (split_words name))))))

-- DETERMINISTIC_SQS_REJECTIONS
abbrev pub deterministic_sqs_rejections : List JsString
deterministic_sqs_rejections =
    units "AccessDenied"
    ∷ units "AccessDeniedException"
    ∷ units "AWS.SimpleQueueService.NonExistentQueue"
    ∷ units "InvalidAddress"
    ∷ units "InvalidMessageContents"
    ∷ units "QueueDoesNotExist"
    ∷ []

unfoldable pub classify_product_sqs_error : JsString → Failed
unfolding normalize_error_code includes
classify_product_sqs_error name = record {
  kind = if includes deterministic_sqs_rejections name then deterministic else ambiguous;
  code = normalize_error_code name;
}
