-- ===== src/Relay/Errors/Laws.antt =====
-- The codes of errors against the format that `recordFailure` asks of them (product-relay.ts and
-- product-outbox-repository.ts).
use throughline.Prelude.{
  ℕ, zero, suc, ◌≤◌, ◌≡◌, refl, Bool, true, false, ◌||◌, not, [], ◌∷◌, ◌==◌, all, take, length,
  length-take, map, JsString, arith,
}
use throughline.Db.ProductOutbox.{is_safe_code, head_tail, is_lower_alnum}
use throughline.Relay.Errors.{
  is_upper, is_lower_or_digit, is_word, split_words, join_others, strip_start, strip_end, to_lower,
  or_default, normalize_error_code,
}

is_part : ℕ → Bool
is_part u = is_word u || u == b'_'

join_others-part : (run : Bool) (s : JsString) → all is_part (join_others run s) ≡ true
unfolding join_others is_part is_word
join_others-part run [] = refl
join_others-part true (u ∷ s) = ground (arith, join_others-part true s, join_others-part false s)
join_others-part false (u ∷ s) = ground (arith, join_others-part true s, join_others-part false s)

strip_start-part : (s : JsString) → all is_part s ≡ true → all is_part (strip_start s) ≡ true
unfolding strip_start
strip_start-part [] h = refl
strip_start-part (u ∷ s) h = ground (arith, strip_start-part s)

strip_end-part : (s : JsString) → all is_part s ≡ true → all is_part (strip_end s) ≡ true
unfolding strip_end
strip_end-part [] h = refl
strip_end-part (u ∷ s) h = ground (arith, strip_end-part s)

-- A text that does not begin with an underscore.
abbrev starts_well : JsString → Bool
starts_well [] = true
starts_well (u ∷ s) = not (u == b'_')

strip_start-starts : (s : JsString) → starts_well (strip_start s) ≡ true
unfolding strip_start
strip_start-starts [] = refl
strip_start-starts (u ∷ s) = ground (arith, strip_start-starts s)

strip_end-starts : (s : JsString) → starts_well s ≡ true → starts_well (strip_end s) ≡ true
unfolding strip_end
strip_end-starts [] h = refl
strip_end-starts (u ∷ s) h = ground arith

is_code_unit : ℕ → Bool
is_code_unit u = is_lower_alnum u || u == b'_'

to_lower-code :
    (u : ℕ)
    → is_part u ≡ true
    → (is_code_unit (to_lower u) ≡ true)
      × (not (u == b'_') ≡ true → is_lower_alnum (to_lower u) ≡ true)
unfolding is_part is_word is_upper is_lower_or_digit to_lower is_code_unit is_lower_alnum
to_lower-code u h = (ground arith, λ n. ground arith)

code_units :
    (n : ℕ) (s : JsString)
    → all is_part s ≡ true
    → all is_code_unit (take n (map to_lower s)) ≡ true
code_units zero s h = refl
code_units (suc n) [] h = refl
code_units (suc n) (u ∷ s) h = ground (arith, code_units n s, to_lower-code u)

head_tail_of :
    (first rest : ℕ → Bool) (n u : ℕ) (s : JsString)
    → first u ≡ true
    → all rest s ≡ true
    → length s ≤ n
    → head_tail first rest n (u ∷ s) ≡ true
unfolding head_tail
head_tail_of first rest n u s f r l = ground arith

safe_code_of :
    (s : JsString)
    → all is_part s ≡ true
    → starts_well s ≡ true
    → is_safe_code (or_default (take 100 (map to_lower s))) ≡ true
unfolding is_safe_code is_code_unit
safe_code_of [] h w = unfold is_lower_alnum in refl
safe_code_of (u ∷ s) h w =
    head_tail_of is_lower_alnum is_code_unit 99 (to_lower u) (take 99 (map to_lower s))
      ((to_lower-code u (ground arith)).1 w) (code_units 99 s (ground arith))
      (omega (arith, length-take 99 (map to_lower s)))

-- Whatever the name of an error, its code has the format that `recordFailure` asks for.
pub normalize_error_code_safe : (name : JsString) → is_safe_code (normalize_error_code name) ≡ true
unfolding normalize_error_code
normalize_error_code_safe name =
    let joined = join_others false (split_words name) in
    let stripped = strip_end (strip_start joined) in
    safe_code_of stripped
      (strip_end-part _ (strip_start-part joined (join_others-part false (split_words name))))
      (strip_end-starts (strip_start joined) (strip_start-starts joined))
