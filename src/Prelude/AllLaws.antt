-- ===== src/Prelude/AllLaws.antt =====
-- Laws of `All`: what holds of every element, through filters, searches and `sorted`.
use mathlib.Core.Path.{◌≡◌, refl, subst}
use native.Mathlib.Omega.{arith}
use mathlib.Core.Bool.{Bool, true, false}
use mathlib.Core.Logic.{inl, inr}
use mathlib.Core.List.{List, [], ◌∷◌, ◌++◌}
use mathlib.Core.Option.{some}
use doktok_ng.Prelude.Tests.{Bool-cases}
use doktok_ng.Prelude.Lists.{keep, count, find_first, All}
use doktok_ng.Prelude.Sort.{insert_sorted, sorted}

-- A count sees only what a weaker filter keeps.
pub count-keep {ℓ} :
    {A : Type ℓ} (p q : A → Bool) (xs : List A)
    → ((x : A) → p x ≡ true → q x ≡ true)
    → count p (keep q xs) ≡ count p xs
count-keep p q [] within = refl
count-keep p q (x ∷ xs) within = ground (arith, count-keep p q xs within, within x)

pub keep_passes {ℓ} : {A : Type ℓ} (p : A → Bool) (xs : List A) → All (λ x. p x ≡ true) (keep p xs)
keep_passes p [] = tt
keep_passes p (x ∷ xs) = elim (Bool-cases (p x)) [
  | inl e ↦ rw e (e, keep_passes p xs)
  | inr e ↦ rw e (keep_passes p xs)
]

module _ {ℓ κ} {A : Type ℓ} (P : A → Type κ) where
  pub All-keep : (p : A → Bool) (xs : List A) → All P xs → All P (keep p xs)
  All-keep p [] h = tt
  All-keep p (x ∷ xs) h = elim (Bool-cases (p x)) [
    | inl e ↦ rw e (h.0, All-keep p xs h.1)
    | inr e ↦ rw e (All-keep p xs h.1)
  ]

  pub All-append : (xs ys : List A) → All P xs → All P ys → All P (xs ++ ys)
  All-append [] ys h k = k
  All-append (x ∷ xs) ys h k = (h.0, All-append xs ys h.1 k)

  -- What holds of all that pass a filter holds of each element that passes it.
  pub All-of_keep :
      (p : A → Bool) (xs : List A) → All P (keep p xs) → All (λ x. p x ≡ true → P x) xs
  All-of_keep p [] h = tt
  All-of_keep p (x ∷ xs) h = elim (Bool-cases (p x)) [
    | inl e ↦ let h' : P x × All P (keep p xs) = rw e at h in (λ q. h'.0, All-of_keep p xs h'.1)
    | inr e ↦ let h' : All P (keep p xs) = rw e at h in (λ q. cc, All-of_keep p xs h')
  ]

  pub All-find_first :
      (p : A → Bool) (xs : List A) (x : A) → All P xs → find_first p xs ≡ some x → P x
  All-find_first p [] x h e = cc
  All-find_first p (y ∷ ys) x h e = elim (Bool-cases (p y)) [
    | inl q ↦ let e' : some y ≡ some x = rw q at e in let same : y ≡ x = cc in subst P same h.0
    | inr q ↦ let e' : find_first p ys ≡ some x = rw q at e in All-find_first p ys x h.1 e'
  ]

  module _ (lt : A → A → Bool) where
    pub All-insert_sorted : (x : A) (xs : List A) → P x → All P xs → All P (insert_sorted lt x xs)
    All-insert_sorted x [] hx h = (hx, tt)
    All-insert_sorted x (y ∷ ys) hx h = elim (Bool-cases (lt y x)) [
      | inl e ↦ rw e (h.0, All-insert_sorted x ys hx h.1)
      | inr e ↦ rw e (hx, h)
    ]

    pub All-sorted : (xs : List A) → All P xs → All P (sorted lt xs)
    All-sorted [] h = tt
    All-sorted (x ∷ xs) h = All-insert_sorted x (sorted lt xs) h.0 (All-sorted xs h.1)

    pub All-of_insert : (x : A) (xs : List A) → All P (insert_sorted lt x xs) → P x × All P xs
    All-of_insert x [] h = h
    All-of_insert x (y ∷ ys) h = elim (Bool-cases (lt y x)) [
      | inl e ↦
          let h' : P y × All P (insert_sorted lt x ys) = rw e at h in
          let later = All-of_insert x ys h'.1 in (later.0, (h'.0, later.1))
      | inr e ↦ let h' : P x × (P y × All P ys) = rw e at h in h'
    ]

    pub All-of_sorted : (xs : List A) → All P (sorted lt xs) → All P xs
    All-of_sorted [] h = tt
    All-of_sorted (x ∷ xs) h =
        let parts = All-of_insert x (sorted lt xs) h in (parts.0, All-of_sorted xs parts.1)

-- A strict order on keys: what `sorted` needs to sort.
pub record IsKeyOrder {ℓ} {A : Type ℓ} (lt : A → A → Bool) : Type ℓ where
  pub asymmetric : (a b : A) → lt a b ≡ true → lt b a ≡ false
  pub cotransitive : (a b c : A) → lt a b ≡ false → lt b c ≡ false → lt a c ≡ false

module _ {ℓ} {A : Type ℓ} (lt : A → A → Bool) where
  -- No element comes before an earlier one in the order.
  abbrev pub SortedBy : List A → Type 0
  SortedBy [] = Unit
  SortedBy (x ∷ xs) = All (λ y. lt y x ≡ false) xs × SortedBy xs

  module _ (order : IsKeyOrder lt) where
    All-cotransitive :
        (x y : A) (ys : List A)
        → lt y x ≡ false
        → All (λ z. lt z y ≡ false) ys
        → All (λ z. lt z x ≡ false) ys
    All-cotransitive x y [] e h = tt
    All-cotransitive x y (z ∷ zs) e h =
        (order.cotransitive z y x h.0 e, All-cotransitive x y zs e h.1)

    SortedBy-insert : (x : A) (xs : List A) → SortedBy xs → SortedBy (insert_sorted lt x xs)
    SortedBy-insert x [] h = (tt, tt)
    SortedBy-insert x (y ∷ ys) h = elim (Bool-cases (lt y x)) [
      | inl e ↦ rw e (
        All-insert_sorted (λ z. lt z y ≡ false) lt x ys (order.asymmetric y x e) h.0,
        SortedBy-insert x ys h.1,
      )
      | inr e ↦ rw e ((e, All-cotransitive x y ys e h.0), h)
    ]

    pub SortedBy-sorted : (xs : List A) → SortedBy (sorted lt xs)
    SortedBy-sorted [] = tt
    SortedBy-sorted (x ∷ xs) = SortedBy-insert x (sorted lt xs) (SortedBy-sorted xs)

    -- In a sorted list the first that passes a test has nothing that passes it before it in the
    -- order.
    pub find_first-least :
        (p : A → Bool) (xs : List A) (x : A)
        → SortedBy xs
        → find_first p xs ≡ some x
        → All (λ y. p y ≡ true → lt y x ≡ false) xs
    find_first-least p [] x h e = tt
    find_first-least p (y ∷ ys) x h e = elim (Bool-cases (p y)) [
      | inl q ↦
          let e' : some y ≡ some x = rw q at e in
          let same : y ≡ x = cc in
          subst (λ z. All (λ w. p w ≡ true → lt w z ≡ false) (y ∷ ys)) same
            (λ k. irreflexive y, weaken ys h.0)
      | inr q ↦
          let e' : find_first p ys ≡ some x = rw q at e in (λ k. cc, find_first-least p ys x h.1 e')
    ]
      where
        irreflexive : (a : A) → lt a a ≡ false
        irreflexive a = elim (Bool-cases (lt a a)) [ inl t ↦ order.asymmetric a a t | inr f ↦ f ]

        weaken :
            (zs : List A) → All (λ w. lt w y ≡ false) zs → All (λ w. p w ≡ true → lt w y ≡ false) zs
        weaken [] a = tt
        weaken (z ∷ zs) a = (λ k. a.0, weaken zs a.1)
