-- ===== src/Features/Row.antt =====
-- FeatureStatus, FeatureMetrics and DocumentFeature of contracts/doktok_contracts/schemas.py.
-- Instants and durations are whole numbers of microseconds, the resolution of `datetime`.
use doktok_ng.Prelude.{ℕ, Bool, true, false, ◌&&◌, Option, String, str_eq}

pub data FeatureStatus : Type 0 where
  pending running done failed : FeatureStatus

pub record FeatureMetrics : Type 0 where
  pub duration_ms : ℕ
  pub prompt_tokens : ℕ
  pub answer_tokens : ℕ
  pub total_tokens : ℕ
  pub model : String
  pub estimated : Bool

pub record DocumentFeature : Type 0 where
  pub id : String
  pub tenant_id : String
  pub document_id : String
  pub feature : String
  pub feature_version : ℕ
  pub status : FeatureStatus
  pub attempts : ℕ
  pub max_attempts : ℕ
  pub last_error : Option String
  pub last_attempt_at : Option ℕ
  pub completed_at : Option ℕ
  pub next_attempt_at : Option ℕ
  pub created_at : ℕ
  pub updated_at : ℕ
  pub metrics : FeatureMetrics

-- FeatureMetrics(), every field at its default
abbrev pub no_metrics : FeatureMetrics
no_metrics = record {
  duration_ms = 0;
  prompt_tokens = 0;
  answer_tokens = 0;
  total_tokens = 0;
  model = "";
  estimated = false;
}

-- The tests `row.status is FeatureStatus.…`.
abbrev pub is_pending : FeatureStatus → Bool
is_pending pending = true
is_pending _ = false

abbrev pub is_running : FeatureStatus → Bool
is_running running = true
is_running _ = false

abbrev pub is_done : FeatureStatus → Bool
is_done done = true
is_done _ = false

abbrev pub is_failed : FeatureStatus → Bool
is_failed failed = true
is_failed _ = false

-- The test of `_find`.
abbrev pub is_row : String → String → String → DocumentFeature → Bool
is_row t d f r = str_eq r.tenant_id t && str_eq r.document_id d && str_eq r.feature f
