-- ===== src/Text/Windows.antt =====
-- `window_text` of core/doktok_core/aggregation/windowing.py, on the lines of a text.
-- `splitlines` is a parameter.
pub mod Cover
mod Examples
use Prim.Native.String.{◌++◌ as str_append}
use doktok_ng.Prelude.{
  ℕ, zero, suc, ◌+◌, ◌-◌, max, Bool, true, false, List, [], ◌∷◌, map, String, leb, if◌then◌else◌,
  length, take, drop,
}

-- len(text)
abbrev pub len : String → ℕ
len String.[] = 0
len (String.◌∷◌ c s) = suc (len s)

-- "".join(lines)
abbrev pub join : List String → String
join [] = ""
join (l ∷ ls) = str_append l (join ls)

-- the lines that the inner loop adds behind the first, when the window has this size
abbrev pub fill : ℕ → ℕ → List String → ℕ
fill window_chars size [] = 0
fill window_chars size (l ∷ ls) =
    let rest = fill window_chars (size + len l) ls in
    if leb (size + len l) window_chars then suc rest else 0

-- how many of the lines one window takes: always the first
abbrev pub reach : ℕ → List String → ℕ
reach window_chars [] = 0
reach window_chars (l ∷ ls) = suc (fill window_chars (len l) ls)

module _ (window_chars overlap_lines : ℕ) (lines : List String) where
  abbrev pub stop_of : ℕ → ℕ
  stop_of start = start + reach window_chars (drop start lines)

  -- start = max(end - overlap_lines, start + 1)
  abbrev pub next_start : ℕ → ℕ → ℕ
  next_start start stop = max (stop - overlap_lines) (start + 1)

  -- The outer loop: the start and the end of each window. It has no more rounds than
  -- lines, and `start < total` holds in every round that follows another.
  unfoldable pub spans : ℕ → ℕ → List (ℕ × ℕ)
  spans zero start = []
  spans (suc fuel) start =
      let stop = stop_of start in
      let rest = spans fuel (next_start start stop) in
      if leb (length lines) stop then (start, stop) ∷ [] else (start, stop) ∷ rest

  -- lines[start:end]
  abbrev pub slice : ℕ × ℕ → List String
  slice (start, stop) = take (stop - start) (drop start lines)

  pub all_spans : List (ℕ × ℕ)
  all_spans = spans (length lines) 0

  pub window_lines : List String
  unfolding all_spans
  window_lines = map (λ s. join (slice s)) all_spans

pub window_text : (String → List String) → ℕ → ℕ → String → List String
window_text split_lines window_chars overlap_lines text =
    window_lines window_chars overlap_lines (split_lines text)
