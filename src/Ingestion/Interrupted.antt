-- ===== src/Ingestion/Interrupted.antt =====
-- `fail_interrupted_processing` of core/doktok_core/ingestion/pipeline.py: the documents that are
-- processing although their extract stage cannot complete.
pub mod Reaps
pub mod Verdicts
use Prim.Native.String.{◌++◌ as str_append}
use doktok_ng.Prelude.{
  ℕ, ◌+◌, Bool, true, false, not, ◌&&◌, Option, none, some, List, [], ◌∷◌, String, str_eq, leb,
  find_first, if◌then◌else◌, dict_get,
}
use doktok_ng.Features.Row.{DocumentFeature, is_failed}
use doktok_ng.Features.Queries.{list_for_document}
use doktok_ng.Features.Ledger.{Ledger}
use doktok_ng.Documents.Document.{Document}
use doktok_ng.Documents.Store.{Store, fail, list_processing}
use doktok_ng.Ingestion.Files.{FilePath, file_at}
use doktok_ng.Ingestion.Services.{Value, words, Services, Ingest}
use doktok_ng.Ingestion.ExtractStage.{path_text, source_of, is_there}

-- extract.last_error or the text that is given
abbrev pub error_or : Option String → String → String
error_or none default = default
error_or (some error) default = if str_eq error "" then default else error

-- The code and the message for a document with this row of the extract stage.
abbrev pub row_reason : Option DocumentFeature → Option (String × String)
row_reason none =
    some (
      "intake_interrupted", "stage ledger was never seeded (worker died during the intake handoff)",
    )
row_reason (some r) =
    if is_failed r.status && leb r.max_attempts r.attempts
    then some ("extract_interrupted", error_or r.last_error "extract failed terminally")
    else none

abbrev pub is_gone : {B : Type 0} → Option FilePath → List (FilePath × B) → Bool
is_gone none files = false
is_gone (some p) files = not (is_there (file_at files p))

module _ {B : Type 0} (svc : Services B) where
  abbrev pub source_text : Option FilePath → String
  source_text none = ""
  source_text (some p) = path_text svc p

  -- Why a document is to fail, if it is.
  pub reason : List (FilePath × B) → Ledger → Document Value → Option (String × String)
  reason files ledger d =
      let staged = source_of (dict_get d.metadata "staged_source") in
      let rows = list_for_document svc.tenant_id d.id ledger in
      if is_gone staged files
      then some ("source_missing", str_append "staged source file is gone: " (source_text staged))
      else row_reason (find_first (λ r. str_eq r.feature "extract") rows)

  abbrev counted : Bool → ℕ → ℕ
  counted true n = n + 1
  counted false n = n

  abbrev pub fail_for : Option (String × String) → String → Store Value → Store Value × Bool
  fail_for none id store = (store, false)
  fail_for (some (code, message)) id store = fail words svc.tenant_id id code message store

  -- The loop; the files and the ledger stay as they are.
  pub fail_each :
      List (FilePath × B) → Ledger → List (Document Value) → Store Value → Store Value × ℕ
  fail_each files ledger [] store = (store, 0)
  fail_each files ledger (d ∷ ds) store =
      let (store', done) = fail_for (reason files ledger d) d.id store in
      let (store'', failed) = fail_each files ledger ds store' in (store'', counted done failed)

  pub fail_interrupted_processing : ℕ → Ingest B → Ingest B × ℕ
  unfolding fail_each
  fail_interrupted_processing older_than s =
      let docs = list_processing svc.tenant_id older_than s.store in
      let (store', failed) = fail_each s.files s.ledger docs s.store in
      if svc.has_feature_repo then (record s { store = store' }, failed) else (s, 0)
