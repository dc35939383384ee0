-- ===== src/Aggregation/Group/Sorting.antt =====
-- A rollup after it is sorted and turned into rows: core/doktok_core/aggregation/inmemory.py.
use doktok_ng.Prelude.{
  ◌≡◌, refl, ap, sym, ◌∙◌, inl, inr, Bool, true, false, Bool-cases, none, some, List, [], ◌∷◌, map,
  find_first, insert_sorted, sorted,
}
use doktok_ng.Aggregation.Group.{value_of, grouped, rolled, row_of}
use doktok_ng.Aggregation.Group.Laws.{
  Absent, Unique, of_key, value_of-grouped_from, Unique-grouped_from,
}

module _ {K V : Type 0} (equals : K → K → Bool) (equal : (j k : K) → equals j k ≡ true → j ≡ k)
    (same : (k : K) → equals k k ≡ true) where
  module _ (lt : K × V → K × V → Bool) where
    Absent-insert_sorted :
        (x : K × V) (d : List (K × V)) (k : K)
        → equals x.0 k ≡ false
        → Absent equals equal same k d
        → Absent equals equal same k (insert_sorted lt x d)
    Absent-insert_sorted x [] k apart h = (apart, tt)
    Absent-insert_sorted x (y ∷ d) k apart (first, rest) = elim (Bool-cases (lt y x)) [
      | inl e ↦ rw e (first, Absent-insert_sorted x d k apart rest)
      | inr e ↦ rw e (apart, (first, rest))
    ]

    Absent-sorted :
        (d : List (K × V)) (k : K)
        → Absent equals equal same k d
        → Absent equals equal same k (sorted lt d)
    Absent-sorted [] k h = tt
    Absent-sorted (x ∷ d) k (first, rest) =
        Absent-insert_sorted x (sorted lt d) k first (Absent-sorted d k rest)

    value_of-insert_sorted :
        (x : K × V) (d : List (K × V)) (k : K)
        → Absent equals equal same x.0 d
        → value_of equals (insert_sorted lt x d) k ≡ value_of equals (x ∷ d) k
    value_of-insert_sorted x [] k h = refl
    value_of-insert_sorted x (y ∷ d) k (first, rest) = elim (Bool-cases (lt y x)) [
      | inl e ↦
          let later = value_of-insert_sorted x d k rest in
          rw e (elim (Bool-cases (equals y.0 k)) [
            | inl f ↦
                let apart : equals x.0 k ≡ false = elim (Bool-cases (equals x.0 k)) [
                  | inl g ↦
                      let both : y.0 ≡ x.0 = equal y.0 k f ∙ sym (equal x.0 k g) in
                      let again : equals y.0 x.0 ≡ true =
                        ap (λ z. equals y.0 z) (sym both) ∙ same y.0 in
                      absurd (cc)
                  | inr g ↦ g
                ] in
                rw f (rw apart refl)
            | inr f ↦ rw f later
          ])
      | inr e ↦ rw e refl
    ]

    value_of-sorted :
        (d : List (K × V)) (k : K)
        → Unique equals equal same d
        → value_of equals (sorted lt d) k ≡ value_of equals d k
    value_of-sorted [] k h = refl
    value_of-sorted (x ∷ d) k (first, rest) =
        value_of-insert_sorted x (sorted lt d) k (Absent-sorted d x.0 first)
        ∙ (rw (value_of-sorted d k rest) refl)

  find_first-rows :
      {W : Type 0} (f : K × V → W) (p : W → Bool) (d : List (K × V)) (k : K)
      → ((j : K) (v : V) → p (f (j, v)) ≡ equals j k)
      → find_first p (map f d) ≡ row_of f k (value_of equals d k)
  find_first-rows f p [] k h = refl
  find_first-rows f p ((j, v) ∷ d) k h = elim (Bool-cases (equals j k)) [
    | inl e ↦
        let here : some (f (j, v)) ≡ some (f (k, v)) = ap (λ i. some (f (i, v))) (equal j k e) in
        rw (h j v) (rw e here)
    | inr e ↦ rw (h j v) (rw e (find_first-rows f p d k h))
  ]

  -- The row of a key in a sorted rollup: it is there if the key has a record, and then its value is
  -- that of all the records of the key.
  pub find_first-grouped :
      {R W : Type 0} (key : R → K) (step : R → V → V) (start : V) (lt : K × V → K × V → Bool)
      (f : K × V → W) (p : W → Bool) (rs : List R) (k : K)
      → ((j : K) (v : V) → p (f (j, v)) ≡ equals j k)
      → find_first p (map f (sorted lt (grouped equals key step start rs)))
        ≡ row_of f k (rolled step start none (of_key equals equal same key step start k rs))
  find_first-grouped key step start lt f p rs k h =
      let d = grouped equals key step start rs in
      find_first-rows f p (sorted lt d) k h
      ∙ ap (row_of f k) (
          value_of-sorted lt d k (Unique-grouped_from equals equal same key step start [] rs tt)
          ∙ value_of-grouped_from equals equal same key step start [] rs k)
