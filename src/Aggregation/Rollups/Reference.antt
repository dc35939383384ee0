-- ===== src/Aggregation/Rollups/Reference.antt =====
-- The rollups against sums over the records of one key:
-- core/doktok_core/aggregation/inmemory.py.
use doktok_ng.Prelude.{
  ℕ, suc, ◌+◌, ◌≡◌, refl, ap, ◌∙◌, inl, inr, ℤ, pos, ◌+ℤ◌, Bool, true, false, Bool-cases, Option,
  none, some, List, [], ◌∷◌, keep, length, find_first, String, str_eq, str_eq→eq, str_eq_self,
  arith,
}
use doktok_ng.Aggregation.Group.{folded, rolled, row_of}
use doktok_ng.Aggregation.Group.Sorting.{find_first-grouped}
use doktok_ng.Aggregation.Records.{ExtractedRecord, RecordRepository, list_for_document}
use doktok_ng.Aggregation.Rows.{
  AggregationIntent, AggregationBucket, RecordCurrencyRollup, RecordTypeCount, ConfidenceBuckets,
  Texts, same_text, is_direction, bucket, bucket_before, currency_rollup, flow_before, type_count,
  type_before, no_buckets,
}
use doktok_ng.Aggregation.Rollups.{
  amount_of, add_amount, add_flow, add_one, add_bucket, bucketed, matched, record_summary,
  aggregate,
}

same_text→eq : (a b : Option String) → same_text a b ≡ true → a ≡ b
same_text→eq none none h = refl
same_text→eq (some a) (some b) h = ap some (str_eq→eq a b h)
same_text→eq _ _ h = cc

same_text_self : (a : Option String) → same_text a a ≡ true
same_text_self none = refl
same_text_self (some a) = str_eq_self a

one_direction :
    (d : Option String) → is_direction d "debit" ≡ true → is_direction d "credit" ≡ false
one_direction none h = refl
one_direction (some a) h = let debit = str_eq→eq a "debit" h in rw debit refl

-- How many records the buckets hold.
abbrev pub all_buckets : ConfidenceBuckets → ℕ
all_buckets b = b.high + b.medium + b.low + b.unscored

module _ {F : Type 0} where
  abbrev sum_from : ℤ → List (ExtractedRecord F) → ℤ
  sum_from total [] = total
  sum_from total (r ∷ rs) = sum_from (total +ℤ amount_of r) rs

  -- The sum of the amounts of some records, in their order.
  abbrev pub sum_of : List (ExtractedRecord F) → ℤ
  sum_of rs = sum_from (pos 0) rs

  abbrev pub in_currency : Option String → List (ExtractedRecord F) → List (ExtractedRecord F)
  in_currency c rs = keep (λ r. same_text r.currency c) rs

  abbrev pub in_direction : String → List (ExtractedRecord F) → List (ExtractedRecord F)
  in_direction d rs = keep (λ r. is_direction r.direction d) rs

  -- The bucket of a currency, of its records alone.
  abbrev pub bucket_for : Option String → List (ExtractedRecord F) → Option AggregationBucket
  bucket_for c [] = none
  bucket_for c (r ∷ rs) =
      some (record { currency = c; total_minor = sum_of (r ∷ rs); count = length (r ∷ rs) })

  abbrev pub flows_for : Option String → List (ExtractedRecord F) → Option RecordCurrencyRollup
  flows_for c [] = none
  flows_for c (r ∷ rs) = some (record {
    currency = c;
    debit_minor = sum_of (in_direction "debit" (r ∷ rs));
    credit_minor = sum_of (in_direction "credit" (r ∷ rs));
    count = length (r ∷ rs);
  })

  abbrev pub types_for : String → List (ExtractedRecord F) → Option RecordTypeCount
  types_for t [] = none
  types_for t (r ∷ rs) = some (record { record_type = t; count = length (r ∷ rs) })

  folded-add_amount :
      (total : ℤ) (n : ℕ) (rs : List (ExtractedRecord F))
      → ◌≡◌ {A = ℤ × ℕ} (folded add_amount (total, n) rs) (sum_from total rs, n + length rs)
  folded-add_amount total n [] =
      let none_left : n ≡ n + 0 = omega arith in ap (λ k. (total, k)) none_left
  folded-add_amount total n (r ∷ rs) =
      let counts : n + 1 + length rs ≡ n + suc (length rs) = omega arith in
      folded-add_amount (total +ℤ amount_of r) (n + 1) rs
      ∙ ap (λ k. (sum_from (total +ℤ amount_of r) rs, k)) counts

  rolled-add_amount :
      (c : Option String) (rs : List (ExtractedRecord F))
      → row_of bucket c (rolled add_amount (pos 0, 0) none rs) ≡ bucket_for c rs
  rolled-add_amount c [] = refl
  rolled-add_amount c (r ∷ rs) =
      let counts : suc (length rs) ≡ 1 + length rs = omega arith in
      rw counts (ap (λ v. some (bucket (c, v))) (folded-add_amount (pos 0 +ℤ amount_of r) 1 rs))

  folded-add_flow :
      (debit credit : ℤ) (n : ℕ) (rs : List (ExtractedRecord F))
      → ◌≡◌ {A = ℤ × ℤ × ℕ} (folded add_flow (debit, credit, n) rs) (
        sum_from debit (in_direction "debit" rs),
        sum_from credit (in_direction "credit" rs),
        n + length rs,
      )
  folded-add_flow debit credit n [] =
      let none_left : n ≡ n + 0 = omega arith in ap (λ k. (debit, credit, k)) none_left
  folded-add_flow debit credit n (r ∷ rs) =
      let counts : n + 1 + length rs ≡ n + suc (length rs) = omega arith in
      elim (Bool-cases (is_direction r.direction "debit")) [
        | inl e ↦ rw e (
            rw (one_direction r.direction e)
              (folded-add_flow (debit +ℤ amount_of r) credit (n + 1) rs ∙ (rw counts refl)))
        | inr e ↦ rw e (elim (Bool-cases (is_direction r.direction "credit")) [
          | inl f ↦
              rw f (folded-add_flow debit (credit +ℤ amount_of r) (n + 1) rs ∙ (rw counts refl))
          | inr f ↦ rw f (folded-add_flow debit credit (n + 1) rs ∙ (rw counts refl))
        ])
      ]

  folded-add_one : (n : ℕ) (rs : List (ExtractedRecord F)) → folded add_one n rs ≡ n + length rs
  folded-add_one n [] = omega arith
  folded-add_one n (r ∷ rs) = folded-add_one (n + 1) rs ∙ omega arith

  module _ (is_high is_medium : F → Bool) where
    add_bucket-suc :
        (c : Option F) (b : ConfidenceBuckets)
        → all_buckets (add_bucket is_high is_medium c b) ≡ suc (all_buckets b)
    add_bucket-suc none b = omega arith
    add_bucket-suc (some c) b = elim (Bool-cases (is_high c)) [
      | inl e ↦ rw e (omega arith)
      | inr e ↦ rw e (elim (Bool-cases (is_medium c)) [
        | inl f ↦ rw f (omega arith)
        | inr f ↦ rw f (omega arith)
      ])
    ]

    all_buckets-bucketed :
        (b : ConfidenceBuckets) (rs : List (ExtractedRecord F))
        → all_buckets (bucketed is_high is_medium b rs) ≡ all_buckets b + length rs
    all_buckets-bucketed b [] = omega arith
    all_buckets-bucketed b (r ∷ rs) =
        let more = add_bucket-suc r.confidence b in
        let ih = all_buckets-bucketed (add_bucket is_high is_medium r.confidence b) rs in
        omega (arith, more, ih)

  rolled-add_flow :
      (c : Option String) (rs : List (ExtractedRecord F))
      → row_of currency_rollup c (rolled add_flow (pos 0, pos 0, 0) none rs) ≡ flows_for c rs
  rolled-add_flow c [] = refl
  rolled-add_flow c (r ∷ rs) =
      let counts : suc (length rs) ≡ 0 + suc (length rs) = omega arith in
      rw counts
        (ap (λ v. some (currency_rollup (c, v))) (folded-add_flow (pos 0) (pos 0) 0 (r ∷ rs)))

  rolled-add_one :
      (t : String) (rs : List (ExtractedRecord F))
      → row_of type_count t (rolled add_one 0 none rs) ≡ types_for t rs
  rolled-add_one t [] = refl
  rolled-add_one t (r ∷ rs) =
      let counts : suc (length rs) ≡ 1 + length rs = omega arith in
      rw counts (ap (λ n. some (type_count (t, n))) (folded-add_one 1 rs))

  -- The bucket that `aggregate` gives for a currency is that of the matching records in the currency
  -- alone: there is one exactly if there is such a record, its total is the sum of their amounts, an
  -- unknown amount counting as nothing, and its count is their number.
  pub aggregate-bucket_for :
      (str : Texts) (t : String) (intent : AggregationIntent) (s : RecordRepository F)
      (c : Option String)
      → find_first (λ b. same_text b.currency c) (aggregate str t intent s).by_currency
        ≡ bucket_for c (in_currency c (matched str t intent s))
  unfolding aggregate
  aggregate-bucket_for str t intent s c =
      let records = matched str t intent s in
      find_first-grouped same_text same_text→eq same_text_self
        (λ (r : ExtractedRecord F). r.currency) add_amount (pos 0, 0) bucket_before bucket
        (λ b. same_text b.currency c) records c (λ j v. refl)
      ∙ rolled-add_amount c (in_currency c records)

  -- In the summary of a document, the row of a currency has the sums of the debits and of the
  -- credits in this currency and the number of its records, the row of a record type has the number
  -- of records of the type, neither is there without such a record, and the confidence buckets hold
  -- each record once.
  pub record_summary-flows_for :
      (is_high is_medium : F → Bool) (t d : String) (s : RecordRepository F) (c : Option String)
      (kind : String)
      → (find_first
            (λ b. same_text b.currency c)
            (record_summary is_high is_medium t d s).by_currency
          ≡ flows_for c (in_currency c (list_for_document t d s)))
        × (find_first
              (λ b. str_eq b.record_type kind)
              (record_summary is_high is_medium t d s).by_type
            ≡ types_for kind (keep (λ r. str_eq r.record_type kind) (list_for_document t d s)))
        × (all_buckets (record_summary is_high is_medium t d s).confidence
            ≡ length (list_for_document t d s))
  unfolding record_summary
  record_summary-flows_for is_high is_medium t d s c kind =
      let records = list_for_document t d s in
      let counts : 0 + length records ≡ length records = omega arith in
      (
        find_first-grouped same_text same_text→eq same_text_self
              (λ (r : ExtractedRecord F). r.currency) add_flow (pos 0, pos 0, 0) flow_before
              currency_rollup (λ b. same_text b.currency c) records c (λ j v. refl)
            ∙ rolled-add_flow c (in_currency c records),
        find_first-grouped str_eq str_eq→eq str_eq_self (λ (r : ExtractedRecord F). r.record_type)
              add_one 0 type_before type_count (λ b. str_eq b.record_type kind) records kind
              (λ j v. refl)
            ∙ rolled-add_one kind (keep (λ r. str_eq r.record_type kind) records),
        all_buckets-bucketed is_high is_medium no_buckets records ∙ counts,
      )
