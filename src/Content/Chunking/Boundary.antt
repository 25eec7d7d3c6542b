-- ===== src/Content/Chunking/Boundary.antt =====
-- Where a chunk ends (`chooseBoundary` of packages/content/src/source-text.ts).
use throughline.Prelude.{
  Option-cases, ◌==◌, ==_iff, min, ℕ, zero, suc, ◌+◌, ◌-◌, ◌≤◌, ◌<◌, ◌≡◌, refl, ◌⊎◌, inl, inr, Bool,
  true, false, Option, none, some, List, length, arith, Bool-cases, JsString, ◌&&◌,
}
use throughline.Content.Chunking.{
  source_chunk_max_scalars, scan_down, is_newline_at, is_space_at, choose_boundary, chunk_end,
}

add_one_sub_one : (n : ℕ) → n + 1 - 1 ≡ n
add_one_sub_one n = omega arith

add_suc_one : (a b : ℕ) → a + suc b ≡ a + b + 1
add_suc_one a b = omega arith

-- A scan that returns `e` passed at `e - 1` and failed above it; one that returns nothing failed
-- everywhere in its range.
pub record Found (test : ℕ → Bool) (start end e : ℕ) : Type 0 where
  pub above : start < e
  pub within : e ≤ end
  pub passed : test (e - 1) ≡ true
  pub last : (i : ℕ) → e ≤ i → i < end → test i ≡ false

abbrev pub Scanned : (test : ℕ → Bool) (start end : ℕ) → Option ℕ → Type 0
Scanned test start end none = (i : ℕ) → start ≤ i → i < end → test i ≡ false
Scanned test start end (some e) = Found test start end e

Scanned-widen :
    (test : ℕ → Bool) (start end : ℕ) (o : Option ℕ)
    → test end ≡ false
    → Scanned test start end o
    → Scanned test start (end + 1) o
Scanned-widen test start end none h f = λ i p q. elim (Bool-cases (i == end)) [
  | inl e ↦ rw ((==_iff i end).0 e) h
  | inr e ↦ f i p (ground arith)
]
Scanned-widen test start end (some e) h f = record {
  above = f.above;
  within = omega (arith, f.within);
  passed = f.passed;
  last = λ i p q. elim (Bool-cases (i == end)) [
    | inl same ↦ rw ((==_iff i end).0 same) h
    | inr other ↦ f.last i p (ground arith)
  ];
}

pub scan_down-Scanned :
    (test : ℕ → Bool) (start rounds : ℕ)
    → Scanned test start (start + rounds) (scan_down test start rounds)
unfolding scan_down
scan_down-Scanned test start zero = λ i p q. absurd (omega arith)
scan_down-Scanned test start (suc rounds) = elim (Bool-cases (test (start + rounds))) [
  | inl pass ↦
      rw (pass, scan_down)
        (record {
          above = omega arith;
          within = omega arith;
          passed = rw (add_one_sub_one (start + rounds)) pass;
          last = λ i p q. absurd (omega arith);
        })
  | inr fail ↦
      rw (fail, scan_down)
        (rw (add_suc_one start rounds)
          (Scanned-widen test start (start + rounds) _ fail (scan_down-Scanned test start rounds)))
]

abbrev Between : ℕ → ℕ → Option ℕ → Type 0
Between start end none = Unit
Between start end (some e) = (start < e) × (e ≤ end)

scan_down-Between :
    (test : ℕ → Bool) (start rounds : ℕ)
    → Between start (start + rounds) (scan_down test start rounds)
unfolding scan_down
scan_down-Between test start zero = tt
scan_down-Between test start (suc rounds) = ground (arith, scan_down-Between test start rounds)

pub choose_boundary_bounds :
    (scalars : List JsString) (start maximum_end : ℕ)
    → start < maximum_end
    → (start < choose_boundary scalars start maximum_end)
      × (choose_boundary scalars start maximum_end ≤ maximum_end)
unfolding choose_boundary
choose_boundary_bounds scalars start maximum_end h = ground (
  arith,
  scan_down-Between (λ i. is_newline_at scalars (i - 1) && is_newline_at scalars i) (start + 1)
      (maximum_end - 1 - start),
  scan_down-Between (is_newline_at scalars) start (maximum_end - start),
  scan_down-Between (is_space_at scalars) start (maximum_end - start),
)

pub chunk_end_bounds :
    (scalars : List JsString) (start : ℕ)
    → start < length scalars
    → (start < chunk_end scalars start)
      × (chunk_end scalars start ≤ length scalars)
      × (chunk_end scalars start ≤ start + source_chunk_max_scalars)
unfolding chunk_end
chunk_end_bounds scalars start h = ground (
  arith,
  choose_boundary_bounds scalars start (min (start + source_chunk_max_scalars) (length scalars)),
)

abbrev is_blank_line_at : List JsString → ℕ → Bool
is_blank_line_at scalars i = is_newline_at scalars (i - 1) && is_newline_at scalars i

-- No index from `start` up to `end` passes the test.
abbrev pub Absent : (ℕ → Bool) → ℕ → ℕ → Type 0
Absent test start end = (i : ℕ) → start ≤ i → i < end → test i ≡ false

-- The end of a chunk by preference: after the last blank line, after the last line end, after the
-- last white space, and only where there is none of these the greatest end.
abbrev pub IsPreferred : List JsString → ℕ → ℕ → ℕ → Type 0
IsPreferred scalars start end e =
    Found (is_blank_line_at scalars) (start + 1) end e
    ⊎ Absent (is_blank_line_at scalars) (start + 1) end
      × (Found (is_newline_at scalars) start end e
          ⊎ Absent (is_newline_at scalars) start end
            × (Found (is_space_at scalars) start end e
                ⊎ Absent (is_space_at scalars) start end × (e ≡ end)))

Scanned-some :
    (test : ℕ → Bool) (start rounds end e : ℕ)
    → start + rounds ≡ end
    → scan_down test start rounds ≡ some e
    → Found test start end e
Scanned-some test start rounds end e same h =
    rw (← same) (rw h at (scan_down-Scanned test start rounds))

Scanned-none :
    (test : ℕ → Bool) (start rounds end : ℕ)
    → start + rounds ≡ end
    → scan_down test start rounds ≡ none
    → Absent test start end
Scanned-none test start rounds end same h =
    rw (← same) (rw h at (scan_down-Scanned test start rounds))

choose_boundary_order :
    (scalars : List JsString) (start maximum_end : ℕ)
    → start < maximum_end
    → IsPreferred scalars start maximum_end (choose_boundary scalars start maximum_end)
unfolding choose_boundary
choose_boundary_order scalars start maximum_end h = elim (Option-cases blank) [
  | inr (e, found) ↦ rw (found, choose_boundary) (inl (Scanned-some _ _ _ _ e (omega arith) found))
  | inl no_blank ↦
      rw (no_blank, choose_boundary)
        (inr (
          Scanned-none _ _ _ _ (omega arith) no_blank,
          elim (Option-cases line) [
            | inr (e, found) ↦
                rw (found, choose_boundary) (inl (Scanned-some _ _ _ _ e (omega arith) found))
            | inl no_line ↦
                rw (no_line, choose_boundary)
                  (inr (
                    Scanned-none _ _ _ _ (omega arith) no_line,
                    elim (Option-cases space) [
                      | inr (e, found) ↦
                          rw (found, choose_boundary)
                            (inl (Scanned-some _ _ _ _ e (omega arith) found))
                      | inl no_space ↦
                          rw (no_space, choose_boundary)
                            (inr (Scanned-none _ _ _ _ (omega arith) no_space, refl))
                    ],
                  ))
          ],
        ))
]
  where
    blank : Option ℕ
    blank = scan_down (is_blank_line_at scalars) (start + 1) (maximum_end - 1 - start)

    line : Option ℕ
    line = scan_down (is_newline_at scalars) start (maximum_end - start)

    space : Option ℕ
    space = scan_down (is_space_at scalars) start (maximum_end - start)

-- Between `start` and a greater end, the chosen boundary lies above `start` and not above that end,
-- and is the preferred one.
pub choose_boundary-IsPreferred :
    (scalars : List JsString) (start maximum_end : ℕ)
    → start < maximum_end
    → (start < choose_boundary scalars start maximum_end)
      × (choose_boundary scalars start maximum_end ≤ maximum_end)
      × IsPreferred scalars start maximum_end (choose_boundary scalars start maximum_end)
choose_boundary-IsPreferred scalars start maximum_end h = (
  (choose_boundary_bounds scalars start maximum_end h).0,
  (choose_boundary_bounds scalars start maximum_end h).1,
  choose_boundary_order scalars start maximum_end h,
)
