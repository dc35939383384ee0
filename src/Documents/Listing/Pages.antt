-- ===== src/Documents/Listing/Pages.antt =====
-- What a page of the listing holds.
use doktok_ng.Prelude.{
  ℕ, zero, suc, ◌≤◌, ◌<◌, ◌≡◌, refl, ap, ◌∙◌, inl, inr, Bool, true, Option, none, some, List, [],
  ◌∷◌, String, arith, ltb, if◌then◌else◌, All, keep, keep_passes, All-keep, All-sorted, take,
  length, count, sorted, insert_sorted, dict_values, Bool-cases,
}
use doktok_ng.Documents.Document.{Document}
use doktok_ng.Documents.Store.{Store}
use doktok_ng.Documents.Filters.{DocumentSort, StrMethods, Seams, Filters, passes, filtered}
use doktok_ng.Documents.Listing.{
  SortDir, ListAnchor, comes_before, is_after, behind_cursor, last_of, anchor_of, list_documents,
}

module _ {ℓ} {A : Type ℓ} where
  length-insert :
      (lt : A → A → Bool) (x : A) (xs : List A) → length (insert_sorted lt x xs) ≡ suc (length xs)
  length-insert lt x [] = refl
  length-insert lt x (y ∷ ys) = ground (arith, length-insert lt x ys)

  length-sorted : (lt : A → A → Bool) (xs : List A) → length (sorted lt xs) ≡ length xs
  length-sorted lt [] = refl
  length-sorted lt (x ∷ xs) = omega (arith, length-insert lt x (sorted lt xs), length-sorted lt xs)

  length-keep : (p : A → Bool) (xs : List A) → length (keep p xs) ≡ count p xs
  length-keep p [] = refl
  length-keep p (x ∷ xs) = ground (arith, length-keep p xs)

  length-take : (n : ℕ) (xs : List A) → length (take n xs) ≤ n
  length-take zero xs = omega arith
  length-take (suc n) [] = omega arith
  length-take (suc n) (x ∷ xs) = omega (arith, length-take n xs)

  length-take_full : (n : ℕ) (xs : List A) → n ≤ length xs → length (take n xs) ≡ n
  length-take_full zero xs h = refl
  length-take_full (suc n) [] h = absurd (omega (arith, h))
  length-take_full (suc n) (x ∷ xs) h = omega (arith, length-take_full n xs (omega (arith, h)))

  take-all : (n : ℕ) (xs : List A) → length xs ≤ n → take n xs ≡ xs
  take-all zero [] h = refl
  take-all zero (x ∷ xs) h = absurd (omega (arith, h))
  take-all (suc n) [] h = refl
  take-all (suc n) (x ∷ xs) h = ap (λ ys. x ∷ ys) (take-all n xs (omega (arith, h)))

  pub All-take {κ} : (P : A → Type κ) (n : ℕ) (xs : List A) → All P xs → All P (take n xs)
  All-take P zero xs h = tt
  All-take P (suc n) [] h = tt
  All-take P (suc n) (x ∷ xs) h = (h.0, All-take P n xs h.1)

  last_of-none : (xs : List A) → last_of xs ≡ none → length xs ≡ 0
  last_of-none [] h = refl
  last_of-none (x ∷ xs) h = go (last_of xs) h
    where
      go :
          (o : Option A)
          → ◌≡◌ {A = Option A} (elim o [ some y ↦ some y | none ↦ some x ]) none
          → suc (length xs) ≡ 0
      go none e = absurd (cc)
      go (some y) e = absurd (cc)

module _ (str : StrMethods) {V : Type 0} (seams : Seams) (t : String) (f : Filters)
    (sort : DocumentSort) (direction : SortDir) (limit : ℕ) (cursor : Option ListAnchor)
    (s : Store V) where
  -- The document lies behind the cursor, if there is one.
  abbrev pub follows_cursor : Option ListAnchor → Document V → Bool
  follows_cursor none d = true
  follows_cursor (some anchor) d = is_after str seams sort direction anchor d

  -- All documents that pass, in order, behind the cursor.
  abbrev pub remaining : List (Document V)
  remaining =
      behind_cursor str seams sort direction cursor
        (sorted (comes_before str seams sort direction) (filtered str seams t f s))

  pub record IsPage (page : List (Document V)) (total : ℕ) (following : Option ListAnchor)
      : Type 0 where
    pub chosen : All (λ d. passes str seams t f d ≡ true) page
    pub behind : All (λ d. follows_cursor cursor d ≡ true) page
    pub small : length page ≤ limit
    pub counted : total ≡ count (passes str seams t f) (dict_values s.docs)
    pub complete : 0 < limit → following ≡ none → page ≡ remaining

  pub All-behind :
      (P : Document V → Type 0) (c : Option ListAnchor) (docs : List (Document V))
      → All P docs
      → All P (behind_cursor str seams sort direction c docs)
  All-behind P none docs h = h
  All-behind P (some anchor) docs h = All-keep P (is_after str seams sort direction anchor) docs h

  pub behind-follows :
      (c : Option ListAnchor) (docs : List (Document V))
      → All (λ d. follows_cursor c d ≡ true) (behind_cursor str seams sort direction c docs)
  behind-follows none [] = tt
  behind-follows none (d ∷ docs) = (refl, behind-follows none docs)
  behind-follows (some anchor) docs = keep_passes (is_after str seams sort direction anchor) docs

  anchor-none : (o : Option (Document V)) → anchor_of str seams sort direction o ≡ none → o ≡ none
  anchor-none none h = refl
  anchor-none (some d) h = absurd (cc)

  rest_complete :
      (docs : List (Document V))
      → 0 < limit
      → (if ltb limit (length docs)
          then anchor_of str seams sort direction (last_of (take limit docs))
          else none)
        ≡ none
      → take limit docs ≡ docs
  rest_complete docs some_room e = elim (Bool-cases (ltb limit (length docs))) [
    | inr fits ↦ take-all limit docs (ground (arith, fits))
    | inl more ↦
        let e' : anchor_of str seams sort direction (last_of (take limit docs)) ≡ none =
          rw more at e in
        let empty = last_of-none (take limit docs) (anchor-none (last_of (take limit docs)) e') in
        absurd (omega (arith, empty, some_room, length-take_full limit docs (ground (arith, more))))
  ]

  -- A page holds only documents that pass all filters and, with a
  -- cursor, lie behind it in the order asked for; it is no longer than the limit; the total counts
  -- all documents that pass, whatever the cursor; and where the limit is not zero and no cursor is
  -- given back, the page is all that is left.
  pub list_documents-IsPage :
      (let r = list_documents str seams t limit cursor f sort direction s in IsPage r.0 r.1 r.2)
  unfolding list_documents
  list_documents-IsPage =
      let docs = dict_values s.docs in
      let found = sorted (comes_before str seams sort direction) (filtered str seams t f s) in
      record {
        chosen =
            All-take (λ d. passes str seams t f d ≡ true) limit remaining
              (All-behind (λ d. passes str seams t f d ≡ true) cursor found
                (All-sorted (λ d. passes str seams t f d ≡ true)
                  (comes_before str seams sort direction) (filtered str seams t f s)
                  (keep_passes (passes str seams t f) docs)));
        behind =
            All-take (λ d. follows_cursor cursor d ≡ true) limit remaining
              (behind-follows cursor found);
        small = length-take limit remaining;
        counted =
            length-sorted (comes_before str seams sort direction) (filtered str seams t f s)
            ∙ length-keep (passes str seams t f) docs;
        complete = λ room e. rest_complete remaining room e;
      }
