-- ===== src/Truth/Timestamp.antt =====
-- packages/core-types/src/domain-notification.ts: `isDomainNotificationTimestamp`. What `Date.parse`
-- gives is the parameter `parse_date`: milliseconds from a fixed early day, or `none` for NaN.
use throughline.Prelude.{
  ℕ, zero, suc, ◌+◌, ◌-◌, ◌*◌, ◌%◌, Bool, true, false, ◌&&◌, ◌||◌, not, Option, none, some, [], ◌∷◌,
  leb, ◌==◌, if◌then◌else◌, JsString, take, drop, length,
}
use throughline.Truth.Validation.{Template, matches, times}

unfoldable pub is_digit : ℕ → Bool
is_digit u = leb b'0' u && leb u b'9'

-- `\d{4}-\d{2}-\d{2}T\d{2}:\d{2}:\d{2}`
unfoldable pub date_time_template : Template
unfolding times is_digit
date_time_template = times 4 is_digit (
    (λ u. u == b'-')
    ∷ times 2 is_digit (
        (λ u. u == b'-')
        ∷ times 2 is_digit (
            (λ u. u == b'T')
            ∷ times 2 is_digit
                ((λ u. u == b':') ∷ times 2 is_digit ((λ u. u == b':') ∷ times 2 is_digit [])))))

-- `[+-]\d{2}:\d{2}`
unfoldable pub offset_template : Template
unfolding times is_digit
offset_template =
    (λ u. u == b'+' || u == b'-') ∷ times 2 is_digit ((λ u. u == b':') ∷ times 2 is_digit [])

-- `(?:Z|[+-]\d{2}:\d{2})$`
unfoldable pub is_offset : JsString → Bool
unfolding matches offset_template
is_offset (u ∷ []) = u == b'Z'
is_offset s = matches offset_template s

-- The rest of `\.\d{1,9}`, where `left` more digits may stand, and the offset after it.
unfoldable pub is_fraction : ℕ → JsString → Bool
unfolding is_digit is_offset
is_fraction zero s = is_offset s
is_fraction (suc left) [] = false
is_fraction (suc left) (u ∷ s) =
    let more = is_fraction left s in if is_digit u then more else is_offset (u ∷ s)

-- `(?:\.\d{1,9})?` and the offset
unfoldable pub is_fraction_and_offset : JsString → Bool
unfolding is_fraction is_digit is_offset
is_fraction_and_offset [] = false
is_fraction_and_offset (u ∷ []) = is_offset (u ∷ [])
is_fraction_and_offset (u ∷ v ∷ s) =
    if u == b'.' then is_digit v && is_fraction 8 s else is_offset (u ∷ v ∷ s)

-- ISO_TIMESTAMP_PATTERN
unfoldable pub is_iso_timestamp : JsString → Bool
unfolding matches date_time_template is_fraction_and_offset
is_iso_timestamp s = matches date_time_template (take 19 s) && is_fraction_and_offset (drop 19 s)

-- `Number(value)` of digits, after those of `high`
unfoldable pub number_after : ℕ → JsString → ℕ
number_after high [] = high
number_after high (u ∷ s) = number_after (high * 10 + (u - 48)) s

-- `Number(value.slice(from, from + count))`
unfoldable pub number_at : ℕ → ℕ → JsString → ℕ
unfolding number_after
number_at from count s = number_after 0 (take count (drop from s))

unfoldable pub is_leap_year : ℕ → Bool
is_leap_year year = year % 4 == 0 && (not (year % 100 == 0) || year % 400 == 0)

unfoldable pub days_in_month : ℕ → ℕ → ℕ
unfolding is_leap_year
days_in_month year month =
    if month == 2
    then if is_leap_year year then 29 else 28
    else if month == 4 || (month == 6 || (month == 9 || month == 11))
    then 30
    else 31

-- `value.endsWith("Z")`
unfoldable pub ends_with_z : JsString → Bool
ends_with_z [] = false
ends_with_z (u ∷ []) = u == b'Z'
ends_with_z (u ∷ v ∷ s) = ends_with_z (v ∷ s)

-- The hours and minutes of the offset, `value.slice(-5, -3)` and `value.slice(-2)`.
unfoldable pub offset_hour : JsString → ℕ
unfolding ends_with_z number_at
offset_hour s = if ends_with_z s then 0 else number_at (length s - 5) 2 s

unfoldable pub offset_minute : JsString → ℕ
unfolding ends_with_z number_at
offset_minute s = if ends_with_z s then 0 else number_at (length s - 2) 2 s

unfoldable pub is_number {ℓ} : {A : Type ℓ} → Option A → Bool
is_number none = false
is_number (some a) = true

unfoldable pub in_calendar : ℕ → ℕ → ℕ → Bool
unfolding days_in_month
in_calendar year month day =
    leb 1 year
    && (leb 1 month && (leb month 12 && (leb 1 day && leb day (days_in_month year month))))

unfoldable pub is_domain_notification_timestamp :
    (parse_date : JsString → Option ℕ) → JsString → Bool
unfolding is_iso_timestamp number_at in_calendar offset_hour offset_minute is_number
is_domain_notification_timestamp parse_date s =
    is_iso_timestamp s
    && (in_calendar (number_at 0 4 s) (number_at 5 2 s) (number_at 8 2 s)
        && (leb (number_at 11 2 s) 23
            && (leb (number_at 14 2 s) 59
                && (leb (number_at 17 2 s) 59
                    && (leb (offset_hour s) 15
                        && (leb (offset_minute s) 59 && is_number (parse_date s)))))))
