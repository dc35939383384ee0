-- ===== src/Aggregation/Examples.antt =====
-- The claims about the rollups at concrete inputs.
use doktok_ng.Prelude.{
  ◌≡◌, ℤ, pos, negsuc, Bool, none, some, [], ◌∷◌, keep, length, find_first, ℕ, leb, String, str_eq,
  Option,
}
use doktok_ng.Aggregation.Records.{ExtractedRecord, RecordRepository, list_for_document}
use doktok_ng.Aggregation.Rows.{AggregationIntent, Texts, same_text}
use doktok_ng.Aggregation.Rollups.{matched, record_summary, aggregate}
use doktok_ng.Aggregation.Rollups.Reference.{
  bucket_for, flows_for, types_for, in_currency, all_buckets, aggregate-bucket_for,
  record_summary-flows_for,
}

-- A confidence in hundredths.
abbrev bought : String → ℤ → Option String → Option ℕ → ExtractedRecord ℕ
bought id amount currency confidence = record {
  id = id;
  tenant_id = "acme";
  document_id = "d1";
  record_type = "card_transaction";
  source_page = some 1;
  raw_text = "line";
  occurred_on = some 738000;
  amount_minor = some amount;
  currency = currency;
  direction = some "debit";
  merchant_raw = none;
  merchant_normalized = some "block house";
  description = none;
  account_label = none;
  confidence = confidence;
}

abbrev purchases : RecordRepository ℕ
purchases =
    (
      ("acme", "d1"),
      bought "r1" (pos 1250) (some "EUR") (some 90)
          ∷ bought "r2" (pos 300) none none
          ∷ bought "r3" (negsuc 49) (some "EUR") (some 40)
          ∷ [],
    )
    ∷ []

abbrev texts : Texts
texts = record { strip_lower = λ s. s; without_spaces = λ s. s; is_in = str_eq }

abbrev spent : AggregationIntent
spent = record {
  operation = "sum";
  record_type = some "card_transaction";
  merchant = some "block house";
  direction = some "debit";
  currency = none;
  date_from = some 737000;
  date_to = none;
  sample_limit = 10;
}

aggregate-bucket_for_example :
    find_first
      (λ b. same_text b.currency (some "EUR"))
      (aggregate texts "acme" spent purchases).by_currency
    ≡ bucket_for (some "EUR") (in_currency (some "EUR") (matched texts "acme" spent purchases))
aggregate-bucket_for_example = aggregate-bucket_for texts "acme" spent purchases (some "EUR")

abbrev is_high : ℕ → Bool
is_high c = leb 80 c

abbrev is_medium : ℕ → Bool
is_medium c = leb 50 c

record_summary-flows_for_example :
    (find_first
        (λ b. same_text b.currency (some "EUR"))
        (record_summary is_high is_medium "acme" "d1" purchases).by_currency
      ≡ flows_for (some "EUR") (in_currency (some "EUR") (list_for_document "acme" "d1" purchases)))
    × (find_first
          (λ b. str_eq b.record_type "card_transaction")
          (record_summary is_high is_medium "acme" "d1" purchases).by_type
        ≡ types_for "card_transaction" (
            keep
              (λ r. str_eq r.record_type "card_transaction")
              (list_for_document "acme" "d1" purchases)))
    × (all_buckets (record_summary is_high is_medium "acme" "d1" purchases).confidence
        ≡ length (list_for_document "acme" "d1" purchases))
record_summary-flows_for_example =
    record_summary-flows_for is_high is_medium "acme" "d1" purchases (some "EUR") "card_transaction"
