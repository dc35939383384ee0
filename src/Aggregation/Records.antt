-- ===== src/Aggregation/Records.antt =====
-- ExtractedRecord of contracts/doktok_contracts/schemas.py, and InMemoryRecordRepository of
-- core/doktok_core/aggregation/inmemory.py but for its rollups. A date is its ordinal; what a
-- confidence is, is a parameter.
use doktok_ng.Prelude.{
  ℕ, ℤ, Bool, true, false, ◌&&◌, ◌||◌, Option, none, some, List, [], length, String, str_eq, ltb,
  text_before, ◌==◌, sorted, take, drop, if◌then◌else◌,
}
use doktok_ng.Aggregation.Group.{value_of, put}

pub record ExtractedRecord (F : Type 0) : Type 0 where
  pub id : String
  pub tenant_id : String
  pub document_id : String
  pub record_type : String
  pub source_page : Option ℕ
  pub raw_text : String
  pub occurred_on : Option ℕ
  pub amount_minor : Option ℤ
  pub currency : Option String
  pub direction : Option String
  pub merchant_raw : Option String
  pub merchant_normalized : Option String
  pub description : Option String
  pub account_label : Option String
  pub confidence : Option F

-- date.min
abbrev pub min_date : ℕ
min_date = 1

abbrev pub date_or_min : Option ℕ → ℕ
date_or_min none = min_date
date_or_min (some date) = date

abbrev pub has_date : Option ℕ → Bool
has_date none = false
has_date (some date) = true

-- the keys of the dictionary of the repository: a tenant and a document
abbrev pub same_owner : String × String → String × String → Bool
same_owner (t, d) (t', d') = str_eq t t' && str_eq d d'

abbrev pub RecordRepository : Type 0 → Type 0
RecordRepository F = List ((String × String) × List (ExtractedRecord F))

module _ {F : Type 0} where
  pub replace_for_document :
      String → String → List (ExtractedRecord F) → RecordRepository F → RecordRepository F
  replace_for_document t d records s = put same_owner [] (t, d) (λ old. records) s

  abbrev or_empty : Option (List (ExtractedRecord F)) → List (ExtractedRecord F)
  or_empty none = []
  or_empty (some records) = records

  pub list_for_document : String → String → RecordRepository F → List (ExtractedRecord F)
  list_for_document t d s = or_empty (value_of same_owner s (t, d))

  -- (occurred_on is None, occurred_on or date.min, id), before that of another record
  abbrev pub comes_before : ExtractedRecord F → ExtractedRecord F → Bool
  comes_before a b =
      let da = date_or_min a.occurred_on in
      let db = date_or_min b.occurred_on in
      let later = ltb da db || (da == db && text_before a.id b.id) in
      if has_date a.occurred_on
      then if has_date b.occurred_on then later else true
      else if has_date b.occurred_on
      then false
      else later

  pub ordered : String → String → RecordRepository F → List (ExtractedRecord F)
  unfolding list_for_document
  ordered t d s = sorted comes_before (list_for_document t d s)

  pub list_for_document_page :
      String → String → ℕ → ℕ → RecordRepository F → List (ExtractedRecord F) × ℕ
  unfolding ordered
  list_for_document_page t d limit offset s =
      (take limit (drop offset (ordered t d s)), length (ordered t d s))
