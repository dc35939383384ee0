-- ===== src/Aggregation/Group.antt =====
-- Rollups by a key as core/doktok_core/aggregation/inmemory.py makes them: a dictionary from keys to
-- running values, with `setdefault` at the first record of a key.
pub mod Laws
pub mod Sorting
use doktok_ng.Prelude.{Bool, Option, none, some, List, [], ◌∷◌, if◌then◌else◌}

module _ {K V : Type 0} (equals : K → K → Bool) where
  abbrev pub value_of : List (K × V) → K → Option V
  value_of [] k = none
  value_of ((j, v) ∷ d) k = let others = value_of d k in if equals j k then some v else others

  -- row = d.setdefault(k, start), and the change of the row
  abbrev pub put : V → K → (V → V) → List (K × V) → List (K × V)
  put start k change [] = (k, change start) ∷ []
  put start k change ((j, v) ∷ d) =
      let others = put start k change d in if equals j k then (j, change v) ∷ d else (j, v) ∷ others

  module _ {R : Type 0} (key : R → K) (step : R → V → V) where
    -- for r in records
    abbrev pub grouped_from : V → List (K × V) → List R → List (K × V)
    grouped_from start d [] = d
    grouped_from start d (r ∷ rs) = grouped_from start (put start (key r) (step r) d) rs

    abbrev pub grouped : V → List R → List (K × V)
    grouped start rs = grouped_from start [] rs

module _ {V R : Type 0} (step : R → V → V) where
  -- The value of one key by itself: all of its records, in their order.
  abbrev pub folded : V → List R → V
  folded v [] = v
  folded v (r ∷ rs) = folded (step r v) rs

  -- The value after some more records of its key, if there is one.
  abbrev pub rolled : V → Option V → List R → Option V
  rolled start none [] = none
  rolled start none (r ∷ rs) = some (folded (step r start) rs)
  rolled start (some v) rs = some (folded v rs)

abbrev pub row_of : {K V W : Type 0} → (K × V → W) → K → Option V → Option W
row_of f k none = none
row_of f k (some v) = some (f (k, v))
