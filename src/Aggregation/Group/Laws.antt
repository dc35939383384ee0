-- ===== src/Aggregation/Group/Laws.antt =====
-- What a rollup holds at a key, before and after it is sorted and turned into rows:
-- core/doktok_core/aggregation/inmemory.py.
use doktok_ng.Prelude.{
  ◌≡◌, refl, ap, sym, ◌∙◌, inl, inr, Bool, true, false, Bool-cases, Option, none, some, List, [],
  ◌∷◌, All, keep, if◌then◌else◌,
}
use doktok_ng.Aggregation.Group.{value_of, put, grouped_from, rolled}

module _ {K V : Type 0} (equals : K → K → Bool) (equal : (j k : K) → equals j k ≡ true → j ≡ k)
    (same : (k : K) → equals k k ≡ true) where
  -- No entry has this key.
  abbrev pub Absent : K → List (K × V) → Type 0
  Absent k = All (λ (j, v). equals j k ≡ false)

  abbrev pub Unique : List (K × V) → Type 0
  Unique [] = Unit
  Unique ((k, v) ∷ d) = Absent k d × Unique d

  abbrev from : V → Option V → V
  from start none = start
  from start (some v) = v

  value_of-put :
      (start : V) (j k : K) (change : V → V) (d : List (K × V))
      → value_of equals (put equals start j change d) k ≡ (
          if equals j k
          then some (change (from start (value_of equals d j)))
          else value_of equals d k)
  value_of-put start j k change [] = refl
  value_of-put start j k change ((i, v) ∷ d) = elim (Bool-cases (equals i j)) [
    | inl e ↦
        let here = equal i j e in
        let swap : equals i k ≡ equals j k = ap (λ x. equals x k) here in
        rw e (rw swap (elim (Bool-cases (equals j k)) [ inl f ↦ rw f refl | inr f ↦ rw f refl ]))
    | inr e ↦ rw e (elim (Bool-cases (equals i k)) [
      | inl f ↦
          let apart : equals j k ≡ false = elim (Bool-cases (equals j k)) [
            | inl g ↦
                let both : i ≡ j = equal i k f ∙ sym (equal j k g) in
                let again : equals i j ≡ true = ap (λ x. equals i x) (sym both) ∙ same i in
                absurd (cc)
            | inr g ↦ g
          ] in
          rw f (rw apart refl)
      | inr f ↦ rw f (value_of-put start j k change d)
    ])
  ]

  Absent-put :
      (start : V) (j k : K) (change : V → V) (d : List (K × V))
      → equals j k ≡ false
      → Absent k d
      → Absent k (put equals start j change d)
  Absent-put start j k change [] apart h = (apart, tt)
  Absent-put start j k change ((i, v) ∷ d) apart (first, rest) = elim (Bool-cases (equals i j)) [
    | inl e ↦ rw e (first, rest)
    | inr e ↦ rw e (first, Absent-put start j k change d apart rest)
  ]

  Unique-put :
      (start : V) (j : K) (change : V → V) (d : List (K × V))
      → Unique d
      → Unique (put equals start j change d)
  Unique-put start j change [] h = (tt, tt)
  Unique-put start j change ((i, v) ∷ d) (first, rest) = elim (Bool-cases (equals i j)) [
    | inl e ↦ rw e (first, rest)
    | inr e ↦
        let apart : equals j i ≡ false = elim (Bool-cases (equals j i)) [
          | inl f ↦
              let again : equals i j ≡ true = ap (λ x. equals i x) (equal j i f) ∙ same i in
              absurd (cc)
          | inr f ↦ f
        ] in
        rw e (Absent-put start j i change d apart first, Unique-put start j change d rest)
  ]

  module _ {R : Type 0} (key : R → K) (step : R → V → V) (start : V) where
    abbrev pub of_key : K → List R → List R
    of_key k rs = keep (λ r. equals (key r) k) rs

    from-rolled :
        (o : Option V) (r : R) (rs : List R)
        → rolled step start (some (step r (from start o))) rs ≡ rolled step start o (r ∷ rs)
    from-rolled none r rs = refl
    from-rolled (some v) r rs = refl

    pub value_of-grouped_from :
        (d : List (K × V)) (rs : List R) (k : K)
        → value_of equals (grouped_from equals key step start d rs) k
          ≡ rolled step start (value_of equals d k) (of_key k rs)
    value_of-grouped_from d [] k = go (value_of equals d k)
      where
        go : (o : Option V) → o ≡ rolled step start o []
        go none = refl
        go (some v) = refl
    value_of-grouped_from d (r ∷ rs) k =
        let rest = value_of-grouped_from (put equals start (key r) (step r) d) rs k in
        let now = value_of-put start (key r) k (step r) d in
        elim (Bool-cases (equals (key r) k)) [
          | inl e ↦
              let here : value_of equals d (key r) ≡ value_of equals d k =
                ap (value_of equals d) (equal (key r) k e) in
              rw e (
                rest
                ∙ (rw now (rw e (rw here (from-rolled (value_of equals d k) r (of_key k rs))))))
          | inr e ↦ rw e (rest ∙ (rw now (rw e refl)))
        ]

    pub Unique-grouped_from :
        (d : List (K × V)) (rs : List R)
        → Unique d
        → Unique (grouped_from equals key step start d rs)
    Unique-grouped_from d [] h = h
    Unique-grouped_from d (r ∷ rs) h =
        Unique-grouped_from (put equals start (key r) (step r) d) rs
          (Unique-put start (key r) (step r) d h)
