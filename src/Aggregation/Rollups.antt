-- ===== src/Aggregation/Rollups.antt =====
-- `record_summary` and `aggregate` of InMemoryRecordRepository, core/doktok_core/aggregation/inmemory.py.
pub mod Reference
use doktok_ng.Prelude.{
  ℕ, zero, ◌+◌, min, max, ℤ, pos, ◌+ℤ◌, Bool, true, false, not, ◌&&◌, ◌||◌, Option, none, some,
  List, [], ◌∷◌, ◌++◌, map, keep, length, String, str_eq, ltb, leb, ◌==◌, sorted, take,
  if◌then◌else◌,
}
use doktok_ng.Aggregation.Group.{grouped}
use doktok_ng.Aggregation.Records.{
  ExtractedRecord, RecordRepository, list_for_document, date_or_min,
}
use doktok_ng.Aggregation.Rows.{
  AggregationBucket, AggregationIntent, AggregationResult, ConfidenceBuckets, DocumentRecordSummary,
  MerchantRollup, RecordCurrencyRollup, RecordTypeCount, Texts, amount_or_zero, bucket,
  bucket_before, currency_rollup, dated, flow_before, from_on, greatest, greatest_from,
  is_direction, least, least_from, merchant_before, merchant_rollup, names_merchant, no_buckets,
  or_empty_text, same_merchant, same_text, squeezed, type_before, type_count, up_to, wanted,
}

module _ {F : Type 0} where
  abbrev pub amount_of : ExtractedRecord F → ℤ
  amount_of r = amount_or_zero r.amount_minor

  -- row[0] += amount, or row[1], and row[2] += 1
  abbrev pub add_flow : ExtractedRecord F → ℤ × ℤ × ℕ → ℤ × ℤ × ℕ
  add_flow r (debit, credit, count) =
      if is_direction r.direction "debit"
      then (debit +ℤ amount_of r, credit, count + 1)
      else if is_direction r.direction "credit"
      then (debit, credit +ℤ amount_of r, count + 1)
      else (debit, credit, count + 1)

  abbrev pub add_amount : ExtractedRecord F → ℤ × ℕ → ℤ × ℕ
  add_amount r (total, count) = (total +ℤ amount_of r, count + 1)

  abbrev pub add_one : ExtractedRecord F → ℕ → ℕ
  add_one r count = count + 1

  abbrev pub merchant_of : ExtractedRecord F → String × Option String
  merchant_of r = (or_empty_text r.merchant_normalized, r.currency)

  abbrev pub dates_of : List (ExtractedRecord F) → List ℕ
  dates_of [] = []
  dates_of (r ∷ rs) = dated r.occurred_on (dates_of rs)

  -- A confidence is tested against CONFIDENCE_HIGH and CONFIDENCE_MEDIUM.
  module _ (is_high is_medium : F → Bool) where
    abbrev pub add_bucket : Option F → ConfidenceBuckets → ConfidenceBuckets
    add_bucket none b = record b { unscored = b.unscored + 1 }
    add_bucket (some c) b =
        if is_high c
        then record b { high = b.high + 1 }
        else if is_medium c
        then record b { medium = b.medium + 1 }
        else record b { low = b.low + 1 }

    abbrev pub bucketed : ConfidenceBuckets → List (ExtractedRecord F) → ConfidenceBuckets
    bucketed b [] = b
    bucketed b (r ∷ rs) = bucketed (add_bucket r.confidence b) rs

    abbrev summary_of : List (ExtractedRecord F) → DocumentRecordSummary
    summary_of records =
        let flows =
          grouped same_text (λ (r : ExtractedRecord F). r.currency) add_flow (pos 0, pos 0, 0)
            records in
        let types = grouped str_eq (λ (r : ExtractedRecord F). r.record_type) add_one 0 records in
        let named = keep (λ r. not (str_eq (or_empty_text r.merchant_normalized) "")) records in
        let merchants = grouped same_merchant merchant_of add_amount (pos 0, 0) named in
        let buckets = bucketed no_buckets records in
        record {
          total = length records;
          by_currency = map currency_rollup (sorted flow_before flows);
          by_type = map type_count (sorted type_before types);
          date_from = least (dates_of records);
          date_to = greatest (dates_of records);
          top_merchants = map merchant_rollup (take 5 (sorted merchant_before merchants));
          confidence = buckets;
          low_confidence_count = buckets.low;
        }

    pub record_summary : String → String → RecordRepository F → DocumentRecordSummary
    record_summary t d s = summary_of (list_for_document t d s)

  abbrev pub matches : Texts → AggregationIntent → ExtractedRecord F → Bool
  matches str intent r =
      wanted intent.record_type (some r.record_type)
      && (wanted intent.direction r.direction
          && (wanted intent.currency r.currency
              && (from_on intent.date_from r.occurred_on
                  && (up_to intent.date_to r.occurred_on
                      && names_merchant str (squeezed str intent.merchant) r.merchant_normalized))))

  abbrev pub records_of : String → RecordRepository F → List (ExtractedRecord F)
  records_of t [] = []
  records_of t (((t', d), records) ∷ s) =
      let others = records_of t s in if str_eq t' t then records ++ others else others

  abbrev pub matched :
      Texts → String → AggregationIntent → RecordRepository F → List (ExtractedRecord F)
  matched str t intent s = keep (matches str intent) (records_of t s)

  -- occurred_on or date.min, with reverse=True
  abbrev pub newer : ExtractedRecord F → ExtractedRecord F → Bool
  newer a b = ltb (date_or_min b.occurred_on) (date_or_min a.occurred_on)

  pub aggregate : Texts → String → AggregationIntent → RecordRepository F → AggregationResult F
  aggregate str t intent s =
      let records = matched str t intent s in
      let totals =
        grouped same_text (λ (r : ExtractedRecord F). r.currency) add_amount (pos 0, 0) records in
      record {
        operation = intent.operation;
        count = length records;
        by_currency = map bucket (sorted bucket_before totals);
        samples = take intent.sample_limit (sorted newer records);
      }
