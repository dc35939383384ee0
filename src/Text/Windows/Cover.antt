-- ===== src/Text/Windows/Cover.antt =====
-- Coverage and size of the windows of core/doktok_core/aggregation/windowing.py.
use doktok_ng.Prelude.{
  ℕ, zero, suc, ◌+◌, ◌-◌, ◌≤◌, ◌<◌, ◌≡◌, ◌⊎◌, refl, inl, inr, List, [], ◌∷◌, String, leb, arith,
  length, take, drop, All, Bool-cases,
}
use doktok_ng.Text.Windows.{len, fill, reach, spans, stop_of, next_start, slice, all_spans}

-- The lengths of the lines together.
abbrev pub chars : List String → ℕ
chars [] = 0
chars (l ∷ ls) = len l + chars ls

fill_bounds :
    (cap size : ℕ) (ls : List String)
    → (fill cap size ls ≤ length ls)
      × ((fill cap size ls ≡ 0) ⊎ (size + chars (take (fill cap size ls) ls) ≤ cap))
fill_bounds cap size [] = (omega arith, inl refl)
fill_bounds cap size (l ∷ ls) =
    let ih = fill_bounds cap (size + len l) ls in
    elim (Bool-cases (leb (size + len l) cap)) [
      | inl e ↦ rw e (
          (
            omega (arith, ih.0),
            inr (elim ih.1 [
              | inl none_more ↦ rw none_more (ground (arith, e))
              | inr small ↦ omega (arith, small)
            ]),
          ))
      | inr e ↦ rw e ((omega arith, inl refl))
    ]

reach_bounds :
    (cap : ℕ) (ls : List String)
    → (reach cap ls ≤ length ls)
      × (0 < length ls → 0 < reach cap ls)
      × ((reach cap ls ≤ 1) ⊎ (chars (take (reach cap ls) ls) ≤ cap))
reach_bounds cap [] = (omega arith, (λ h. absurd (omega (arith, h))), inl (omega arith))
reach_bounds cap (l ∷ ls) =
    let b = fill_bounds cap (len l) ls in
    (
      omega (arith, b.0),
      (λ h. omega arith),
      elim b.1 [ inl none_more ↦ inl (omega (arith, none_more)) | inr small ↦ inr small ],
    )

length-drop : (n : ℕ) (ls : List String) → n ≤ length ls → length (drop n ls) + n ≡ length ls
length-drop zero ls h = omega arith
length-drop (suc n) [] h = absurd (omega (arith, h))
length-drop (suc n) (l ∷ ls) h = omega (arith, h, length-drop n ls (omega (arith, h)))

module _ (total : ℕ) where
  -- Spans that start at a line and leave no line out up to the last: each starts behind the start
  -- of the one before it and not behind its end.
  pub data Covers : ℕ → List (ℕ × ℕ) → Type 0 where
    last : (start : ℕ) → start < total → Covers start ((start, total) ∷ [])
    next :
        (start stop again : ℕ) (rest : List (ℕ × ℕ))
        → start < again
        → again ≤ stop
        → stop < total
        → Covers again rest
        → Covers start ((start, stop) ∷ rest)

module _ (cap overlap : ℕ) (lines : List String) where
  stop_of_bounds :
      (start : ℕ)
      → start < length lines
      → (start < stop_of cap overlap lines start) × (stop_of cap overlap lines start ≤ length lines)
  stop_of_bounds start h =
      let b = reach_bounds cap (drop start lines) in
      let l = length-drop start lines (omega (arith, h)) in
      let first = b.1 (omega (arith, h, l)) in (omega (arith, first), omega (arith, b.0, l))

  spans-Covers :
      (fuel start : ℕ)
      → start < length lines
      → length lines ≤ start + fuel
      → Covers (length lines) start (spans cap overlap lines fuel start)
  unfolding spans
  spans-Covers zero start h enough = absurd (omega (arith, h, enough))
  spans-Covers (suc fuel) start h enough =
      let stop = stop_of cap overlap lines start in
      let b = stop_of_bounds start h in
      elim (Bool-cases (leb (length lines) stop)) [
        | inl e ↦
            rw e (let eq : stop ≡ length lines = ground (arith, e, b.1) in rw eq (last start h))
        | inr e ↦
            let less : stop < length lines = ground (arith, e) in
            let again = next_start cap overlap lines start stop in
            let after : start < again = omega arith in
            let up : again ≤ stop = omega (arith, b.0) in
            rw e (
              next start stop again (spans cap overlap lines fuel again) after up less
                (spans-Covers fuel again (omega (arith, up, less)) (omega (arith, after, enough))))
      ]

  -- The windows of a text that has a line cover its lines from the first to the last: each window
  -- starts behind the start of the one before and leaves no line out between them.
  pub all_spans-Covers : 0 < length lines → Covers (length lines) 0 (all_spans cap overlap lines)
  unfolding all_spans
  all_spans-Covers h = spans-Covers (length lines) 0 h (omega arith)

  spans-fit :
      (fuel start : ℕ)
      → All
          (λ (span : ℕ × ℕ). (span.1 ≤ span.0 + 1) ⊎ (chars (slice cap overlap lines span) ≤ cap))
          (spans cap overlap lines fuel start)
  unfolding spans
  spans-fit zero start = tt
  spans-fit (suc fuel) start =
      let stop = stop_of cap overlap lines start in
      elim (Bool-cases (leb (length lines) stop)) [
        | inl e ↦ rw e ((one start, tt))
        | inr e ↦ rw e ((one start, spans-fit fuel (next_start cap overlap lines start stop)))
      ]
    where
      one :
          (s : ℕ)
          → (stop_of cap overlap lines s ≤ s + 1)
            ⊎ (chars (slice cap overlap lines (s, stop_of cap overlap lines s)) ≤ cap)
      one s =
          let b = reach_bounds cap (drop s lines) in
          let n = reach cap (drop s lines) in
          let eq : (s + n) - s ≡ n = omega arith in
          elim b.2 [ inl short ↦ inl (omega (arith, short)) | inr small ↦ inr (rw eq small) ]

  -- A window that is longer than `window_chars` has one line.
  pub all_spans-fit :
      All
        (λ (span : ℕ × ℕ). (span.1 ≤ span.0 + 1) ⊎ (chars (slice cap overlap lines span) ≤ cap))
        (all_spans cap overlap lines)
  unfolding all_spans
  all_spans-fit = spans-fit (length lines) 0
