-- ===== src/Documents/Document.antt =====
-- DocumentStatus and Document of contracts/doktok_contracts/schemas.py. A value of the metadata is
-- of any type, a parameter. Instants are in microseconds and dates in days.
use doktok_ng.Prelude.{ℕ, Bool, true, false, Option, List, String}

pub data DocumentStatus : Type 0 where
  processing active failed quarantined duplicate : DocumentStatus

abbrev pub is_processing : DocumentStatus → Bool
is_processing processing = true
is_processing _ = false

abbrev pub is_active : DocumentStatus → Bool
is_active active = true
is_active _ = false

pub record Document (V : Type 0) : Type 0 where
  pub id : String
  pub tenant_id : String
  pub current_version_id : Option String
  pub sha256 : String
  pub original_filename : String
  pub detected_mime : Option String
  pub title : Option String
  pub title_source : String
  pub status : DocumentStatus
  pub storage_path : Option String
  pub created_at : ℕ
  pub activated_at : Option ℕ
  pub ingested_at : Option ℕ
  pub document_date : Option ℕ
  pub location : Option String
  pub summary : Option String
  pub unidentifiable : Option Bool
  pub duplicate_of : Option String
  pub metadata : List (String × V)
