-- ===== src/Features/Claim/Choice.antt =====
-- What `claim_next` chooses: core/doktok_core/features/inmemory.py.
use doktok_ng.Prelude.{
  ℕ, suc, ◌+◌, ◌≡◌, ap, ◌∙◌, Bool, true, false, none, some, List, [], ◌∷◌, String, arith, All,
  get_elem?, keep, sorted, keep_passes, All-keep, All-of_keep, All-find_first, All-sorted,
  All-of_sorted, find_first-passes, find_first-none, IsKeyOrder, SortedBy-sorted, find_first-least,
}
use doktok_ng.Features.Row.{DocumentFeature}
use doktok_ng.Features.Claim.{Lanes, in_tenant, claimable, earlier, numbered, choose}

abbrev Numbered : Type 0
Numbered = ℕ × DocumentFeature

abbrev earlier_number : List (String × String) → Numbered → Numbered → Bool
earlier_number deps (i, a) (j, b) = earlier deps a b

-- The row stands where its number says.
abbrev pub IsPlaced : List DocumentFeature → Numbered → Type 0
IsPlaced rows (i, r) = get_elem? rows i ≡ some r

earlier-IsKeyOrder : (deps : List (String × String)) → IsKeyOrder (earlier_number deps)
unfolding earlier
earlier-IsKeyOrder deps = record {
  asymmetric = λ (i, a) (j, b) h. ground arith;
  cotransitive = λ (i, a) (j, b) (k, c) h l. ground arith;
}

-- A statement about every row is one about every numbered row.
module _ (P : DocumentFeature → Type 0) where
  pub All-numbered :
      (i : ℕ) (rows : List DocumentFeature) → All P rows → All (λ (j, r). P r) (numbered i rows)
  All-numbered i [] h = tt
  All-numbered i (r ∷ rs) h = (h.0, All-numbered (suc i) rs h.1)

  pub All-of_numbered :
      (i : ℕ) (rows : List DocumentFeature) → All (λ (j, r). P r) (numbered i rows) → All P rows
  All-of_numbered i [] h = tt
  All-of_numbered i (r ∷ rs) h = (h.0, All-of_numbered (suc i) rs h.1)

numbered-IsPlaced : (rows : List DocumentFeature) → All (IsPlaced rows) (numbered 0 rows)
numbered-IsPlaced rows = go rows 0 (λ j. ap (get_elem? rows) (omega arith))
  where
    go :
        (rest : List DocumentFeature) (i : ℕ)
        → ((j : ℕ) → get_elem? rows (i + j) ≡ get_elem? rest j)
        → All (IsPlaced rows) (numbered i rest)
    go [] i same = tt
    go (r ∷ rest) i same = (
      ap (get_elem? rows) {x = i} {y = i + 0} (omega arith) ∙ same 0,
      go rest (suc i)
          (λ j. ap (get_elem? rows) {x = suc i + j} {y = i + suc j} (omega arith) ∙ same (suc j)),
    )

-- The chosen row is in its place, of the tenant and claimable, and no claimable row of the tenant
-- comes before it in the order of the queue.
pub record IsChoice (lanes : Lanes) (now reclaim_before : ℕ) (rows : List DocumentFeature)
    (t : String) (i : ℕ) (r : DocumentFeature) : Type 0 where
  pub placed : get_elem? rows i ≡ some r
  pub owned : in_tenant t r ≡ true
  pub passes : claimable lanes now reclaim_before rows t r ≡ true
  pub first :
      All
        (λ other.
          in_tenant t other ≡ true
          → claimable lanes now reclaim_before rows t other ≡ true
          → earlier lanes.dependencies other r ≡ false)
        rows

module _ (lanes : Lanes) (now reclaim_before : ℕ) (rows : List DocumentFeature) (t : String) where
  abbrev passes : Numbered → Bool
  passes (i, r) = claimable lanes now reclaim_before rows t r

  pub choose-IsChoice :
      (i : ℕ) (r : DocumentFeature)
      → choose lanes now reclaim_before rows t ≡ some (i, r)
      → IsChoice lanes now reclaim_before rows t i r
  choose-IsChoice i r e =
      let lt = earlier_number lanes.dependencies in
      let owned = keep (λ (j, q). in_tenant t q) (numbered 0 rows) in
      record {
        placed =
            All-find_first (IsPlaced rows) passes (sorted lt owned) (i, r)
              (All-sorted (IsPlaced rows) lt owned (
                All-keep (IsPlaced rows) (λ (j, q). in_tenant t q) (numbered 0 rows)
                  (numbered-IsPlaced rows)))
              e;
        owned =
            All-find_first (λ (j, q). in_tenant t q ≡ true) passes (sorted lt owned) (i, r)
              (All-sorted (λ (j, q). in_tenant t q ≡ true) lt owned
                (keep_passes (λ (j, q). in_tenant t q) (numbered 0 rows)))
              e;
        passes = find_first-passes passes (sorted lt owned) (i, r) e;
        first =
            All-of_numbered
              (λ other.
                in_tenant t other ≡ true
                → claimable lanes now reclaim_before rows t other ≡ true
                → earlier lanes.dependencies other r ≡ false)
              0 rows
              (All-of_keep (λ n. passes n ≡ true → lt n (i, r) ≡ false) (λ (j, q). in_tenant t q)
                (numbered 0 rows)
                (All-of_sorted (λ n. passes n ≡ true → lt n (i, r) ≡ false) lt owned
                  (find_first-least lt (earlier-IsKeyOrder lanes.dependencies) passes
                    (sorted lt owned) (i, r)
                    (SortedBy-sorted lt (earlier-IsKeyOrder lanes.dependencies) owned) e)));
      }

  pub choose-none :
      choose lanes now reclaim_before rows t ≡ none
      → All (λ r. in_tenant t r ≡ true → claimable lanes now reclaim_before rows t r ≡ false) rows
  choose-none e =
      let lt = earlier_number lanes.dependencies in
      let owned = keep (λ (j, q). in_tenant t q) (numbered 0 rows) in
      All-of_numbered
        (λ r. in_tenant t r ≡ true → claimable lanes now reclaim_before rows t r ≡ false) 0 rows
        (All-of_keep (λ n. passes n ≡ false) (λ (j, q). in_tenant t q) (numbered 0 rows)
          (All-of_sorted (λ n. passes n ≡ false) lt owned
            (find_first-none passes (sorted lt owned) e)))
