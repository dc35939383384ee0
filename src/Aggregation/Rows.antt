-- ===== src/Aggregation/Rows.antt =====
-- The rows of the rollups, in contracts/doktok_contracts/schemas.py, and the orders that
-- core/doktok_core/aggregation/inmemory.py sorts them by.
use doktok_ng.Prelude.{
  ℕ, min, max, ℤ, pos, Bool, true, false, ◌&&◌, ◌||◌, Option, none, some, List, [], ◌∷◌, String,
  str_eq, ltb, text_before, leb, ◌==◌, if◌then◌else◌,
}
use doktok_ng.Aggregation.Records.{ExtractedRecord}

pub record AggregationIntent : Type 0 where
  pub operation : String
  pub record_type : Option String
  pub merchant : Option String
  pub direction : Option String
  pub currency : Option String
  pub date_from : Option ℕ
  pub date_to : Option ℕ
  pub sample_limit : ℕ

pub record AggregationBucket : Type 0 where
  pub currency : Option String
  pub total_minor : ℤ
  pub count : ℕ

pub record AggregationResult (F : Type 0) : Type 0 where
  pub operation : String
  pub count : ℕ
  pub by_currency : List AggregationBucket
  pub samples : List (ExtractedRecord F)

pub record RecordCurrencyRollup : Type 0 where
  pub currency : Option String
  pub debit_minor : ℤ
  pub credit_minor : ℤ
  pub count : ℕ

pub record MerchantRollup : Type 0 where
  pub merchant : String
  pub currency : Option String
  pub count : ℕ
  pub total_minor : ℤ

pub record RecordTypeCount : Type 0 where
  pub record_type : String
  pub count : ℕ

pub record ConfidenceBuckets : Type 0 where
  pub high : ℕ
  pub medium : ℕ
  pub low : ℕ
  pub unscored : ℕ

pub record DocumentRecordSummary : Type 0 where
  pub total : ℕ
  pub by_currency : List RecordCurrencyRollup
  pub by_type : List RecordTypeCount
  pub date_from : Option ℕ
  pub date_to : Option ℕ
  pub top_merchants : List MerchantRollup
  pub confidence : ConfidenceBuckets
  pub low_confidence_count : ℕ

-- `==` between texts that may be None
abbrev pub same_text : Option String → Option String → Bool
same_text none none = true
same_text (some a) (some b) = str_eq a b
same_text _ _ = false

abbrev pub amount_or_zero : Option ℤ → ℤ
amount_or_zero none = pos 0
amount_or_zero (some amount) = amount

abbrev pub or_empty_text : Option String → String
or_empty_text none = ""
or_empty_text (some text) = text

abbrev pub is_direction : Option String → String → Bool
is_direction none d = false
is_direction (some a) d = str_eq a d

-- intent.field is None or record.field == intent.field
abbrev pub wanted : Option String → Option String → Bool
wanted none value = true
wanted (some a) value = same_text value (some a)

abbrev pub from_on : Option ℕ → Option ℕ → Bool
from_on none date = true
from_on (some start) none = false
from_on (some start) (some date) = leb start date

abbrev pub up_to : Option ℕ → Option ℕ → Bool
up_to none date = true
up_to (some stop) none = false
up_to (some stop) (some date) = leb date stop

abbrev pub dated : Option ℕ → List ℕ → List ℕ
dated none ds = ds
dated (some d) ds = d ∷ ds

abbrev pub least_from : ℕ → List ℕ → ℕ
least_from d [] = d
least_from d (e ∷ ds) = least_from (min d e) ds

abbrev pub greatest_from : ℕ → List ℕ → ℕ
greatest_from d [] = d
greatest_from d (e ∷ ds) = greatest_from (max d e) ds

-- min(dates) if dates else None, and max
abbrev pub least : List ℕ → Option ℕ
least [] = none
least (d ∷ ds) = some (least_from d ds)

abbrev pub greatest : List ℕ → Option ℕ
greatest [] = none
greatest (d ∷ ds) = some (greatest_from d ds)

abbrev pub no_buckets : ConfidenceBuckets
no_buckets = record { high = 0; medium = 0; low = 0; unscored = 0 }

-- (-count, currency or "")
abbrev pub flow_before : Option String × (ℤ × ℤ × ℕ) → Option String × (ℤ × ℤ × ℕ) → Bool
flow_before (c, (d, e, n)) (c', (d', e', n')) =
    ltb n' n || (n == n' && text_before (or_empty_text c) (or_empty_text c'))

abbrev pub currency_rollup : Option String × (ℤ × ℤ × ℕ) → RecordCurrencyRollup
currency_rollup (c, (d, e, n)) = record {
  currency = c;
  debit_minor = d;
  credit_minor = e;
  count = n;
}

abbrev pub type_before : String × ℕ → String × ℕ → Bool
type_before (t, n) (t', n') = ltb n' n || (n == n' && text_before t t')

abbrev pub type_count : String × ℕ → RecordTypeCount
type_count (t, n) = record { record_type = t; count = n }

abbrev pub same_merchant : String × Option String → String × Option String → Bool
same_merchant (m, c) (m', c') = str_eq m m' && same_text c c'

abbrev pub merchant_before :
    (String × Option String) × (ℤ × ℕ) → (String × Option String) × (ℤ × ℕ) → Bool
merchant_before ((m, c), (total, n)) ((m', c'), (total', n')) =
    ltb n' n || (n == n' && text_before m m')

abbrev pub merchant_rollup : (String × Option String) × (ℤ × ℕ) → MerchantRollup
merchant_rollup ((m, c), (total, n)) = record {
  merchant = m;
  currency = c;
  count = n;
  total_minor = total;
}

-- -count
abbrev pub bucket_before : Option String × (ℤ × ℕ) → Option String × (ℤ × ℕ) → Bool
bucket_before (c, (total, n)) (c', (total', n')) = ltb n' n

abbrev pub bucket : Option String × (ℤ × ℕ) → AggregationBucket
bucket (c, (total, n)) = record { currency = c; total_minor = total; count = n }

-- The methods of str that `aggregate` calls: strip().lower() and replace(" ", ""), and `in`.
pub record Texts : Type 0 where
  pub strip_lower : String → String
  pub without_spaces : String → String
  pub is_in : String → String → Bool

-- merchant_ok, for the merchant that is asked for without its spaces
abbrev pub names_merchant : Texts → Option String → Option String → Bool
names_merchant str none name = true
names_merchant str (some merchant) none = false
names_merchant str (some merchant) (some name) = str.is_in merchant (str.without_spaces name)

abbrev pub squeezed : Texts → Option String → Option String
squeezed str none = none
squeezed str (some m) = if str_eq m "" then none else some (str.without_spaces (str.strip_lower m))
