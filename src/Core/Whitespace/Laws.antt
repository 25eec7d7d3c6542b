-- ===== src/Core/Whitespace/Laws.antt =====
-- `input.trim()`: a trimmed text stays as it is.
use throughline.Prelude.{
  ℕ, ◌≡◌, refl, ◌∙◌, ap, Bool, true, false, not, [], ◌∷◌, any, JsString, arith, if◌then◌else◌,
  Bool-cases, inl, inr, ◌⊎◌,
}
use throughline.Core.Whitespace.{is_space_unit, trim, trim_end, trim_start}

-- The text is empty, or begins with something other than white space.
abbrev starts_solid : JsString → Bool
starts_solid [] = true
starts_solid (u ∷ s) = not (is_space_unit u)

List-cases : (s : JsString) → (s ≡ []) ⊎ ((v : ℕ) × (t : JsString) × (s ≡ v ∷ t))
List-cases [] = inl refl
List-cases (v ∷ t) = inr (v, t, refl)

trim_end-nil : starts_solid (trim_end []) ≡ true
unfolding trim_end
trim_end-nil = refl

trim_start-solid : (s : JsString) → starts_solid (trim_start s) ≡ true
unfolding trim_start
trim_start-solid [] = refl
trim_start-solid (u ∷ s) = elim (Bool-cases (is_space_unit u)) [
  | inl e ↦ rw e (trim_start-solid s)
  | inr e ↦ rw (e, e)
]

trim_start-same : (s : JsString) → starts_solid s ≡ true → trim_start s ≡ s
unfolding trim_start
trim_start-same [] h = refl
trim_start-same (u ∷ s) h = ground (arith, h)

-- What `trim_end` makes of a unit and of the trimmed rest.
abbrev end_of : Bool → ℕ → JsString → JsString
end_of is_space u [] = if is_space then [] else u ∷ []
end_of is_space u (v ∷ t) = u ∷ v ∷ t

trim_end-cons : (u : ℕ) (s : JsString) → trim_end (u ∷ s) ≡ end_of (is_space_unit u) u (trim_end s)
unfolding trim_end
trim_end-cons u s = elim (List-cases (trim_end s)) [ inl e ↦ rw e refl | inr (v, t, e) ↦ rw e refl ]

end_of-solid :
    (u : ℕ) (t : JsString)
    → is_space_unit u ≡ false
    → starts_solid (end_of (is_space_unit u) u t) ≡ true
end_of-solid u [] h = rw (h, h)
end_of-solid u (v ∷ t) h = rw h

trim_end-solid : (s : JsString) → starts_solid s ≡ true → starts_solid (trim_end s) ≡ true
trim_end-solid [] h = trim_end-nil
trim_end-solid (u ∷ s) h = rw (trim_end-cons u s) (end_of-solid u (trim_end s) (ground (arith, h)))

trim_end_idem : (s : JsString) → trim_end (trim_end s) ≡ trim_end s
unfolding trim_end
trim_end_idem [] = refl
trim_end_idem (u ∷ s) = ground (arith, trim_end_idem s)

pub trim_idem : (s : JsString) → trim (trim s) ≡ trim s
unfolding trim
trim_idem s =
    ap trim_end (
      trim_start-same (trim_end (trim_start s))
        (trim_end-solid (trim_start s) (trim_start-solid s)))
    ∙ trim_end_idem (trim_start s)

module _ (p : ℕ → Bool) where
  trim_start-any : (s : JsString) → any p s ≡ false → any p (trim_start s) ≡ false
  unfolding trim_start
  trim_start-any [] h = refl
  trim_start-any (u ∷ s) h = ground (arith, h, trim_start-any s)

  trim_end-any : (s : JsString) → any p s ≡ false → any p (trim_end s) ≡ false
  unfolding trim_end
  trim_end-any [] h = refl
  trim_end-any (u ∷ s) h = ground (arith, h, trim_end-any s)

  pub trim-any : (s : JsString) → any p s ≡ false → any p (trim s) ≡ false
  unfolding trim
  trim-any s h = trim_end-any (trim_start s) (trim_start-any s h)
