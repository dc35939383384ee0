-- ===== src/Ingestion/Pipeline.antt =====
-- `process_file` of core/doktok_core/ingestion/pipeline.py, inline and staged.
pub mod Runs
pub mod Staged
use Prim.Native.String.{◌++◌ as str_append}
use doktok_ng.Prelude.{
  ℕ, ◌+◌, Bool, true, false, ◌&&◌, Option, none, some, List, [], ◌∷◌, ◌++◌, String, str_eq, ltb,
  if◌then◌else◌, dict_get,
}
use doktok_ng.Security.Policy.{
  SecurityDecision, allow, quarantine as quarantine_file, reject, decide,
}
use doktok_ng.Features.Ledger.{seed_for_document, record_done}
use doktok_ng.Documents.Document
use doktok_ng.Documents.Document.{Document, DocumentStatus}
use doktok_ng.Documents.Store.{
  Result, returned, value_error, duplicate_active, find_active_by_sha256, find_unfinished_by_sha256,
  delete,
}
use doktok_ng.Jobs
use doktok_ng.Ingestion.Files.{Folder, FilePath, workdir, active_dir, file_at, move, rmtree}
use doktok_ng.Ingestion.Services.{
  Value, words, place, number, Job, Services, ExtractionResult, Extraction, extracted, needs_ocr,
  too_many_pages, render_limit, other_error, Indexing, indexed, index_error, received, identified,
  was_activated, Ingest, Step, Tried, value, raised, ◌>>=◌, ◌>>◌, pure, raise, gets, modify,
  modify_job, set_job, or_raise, add_job, update_job, try_add_document, add_document, new_id,
  read_clock, audit,
}
use doktok_ng.Ingestion.Outcomes.{
  original_filename, or_empty_text, title_of, handle_duplicate, fail, quarantine,
}
use doktok_ng.Ingestion.Artifacts.{
  extension_for, move_file, read_file, artifact_path, write_document_artifacts,
}
use doktok_ng.Ingestion.Activation.{activate}

module _ {B : Type 0} (svc : Services B) where
  abbrev pub processing_document : Job → String → ℕ → Document Value
  processing_document job id at = record {
    id = id;
    tenant_id = svc.tenant_id;
    current_version_id = none;
    sha256 = or_empty_text job.sha256;
    original_filename = original_filename job;
    detected_mime = job.detected_mime;
    title = some (title_of svc (original_filename job));
    title_source = "auto";
    status = Document.processing;
    storage_path = none;
    created_at = at;
    activated_at = none;
    ingested_at = none;
    document_date = none;
    location = none;
    summary = none;
    unidentifiable = none;
    duplicate_of = none;
    metadata = ("staged_source", place job.source_path) ∷ [];
  }

  pub create_processing_document : Step B Job
  create_processing_document = do
    id ← new_id svc
    at ← read_clock svc
    job ← gets (λ s. s.job)
    add_document (processing_document job id at)
    modify (λ s. record s {
      ledger = (seed_for_document svc.row_uuid at svc.tenant_id id svc.stage_ledger s.ledger).0;
    })
    modify_job
        (λ j. record j { document_id = some id; status = Jobs.active; finished_at = some at })
    update_job
    gets (λ s. s.job)

  pub by_decision : SecurityDecision → String → ℕ → Step B Job
  unfolding activate create_processing_document
  by_decision quarantine_file mime size = quarantine svc
  by_decision reject mime size =
      fail svc (if ltb svc.policy.max_file_bytes size then "too_large" else "unsupported_type")
        (str_append "rejected mime=" (str_append mime (str_append " size=" (svc.show size))))
  by_decision allow mime size =
      if svc.staged_ingestion && svc.has_feature_repo
      then create_processing_document
      else activate svc

  -- `_find_original_document_id`
  abbrev pub find_original : Ingest B → Option String
  find_original s =
      if str_eq (or_empty_text s.job.sha256) ""
      then none
      else find_unfinished_by_sha256 svc.tenant_id (or_empty_text s.job.sha256) s.store

  pub unless_duplicate : Option String → B → Step B Job
  unfolding by_decision
  unless_duplicate (some original) bytes = handle_duplicate svc original
  unless_duplicate none bytes = do
    job ← gets (λ s. s.job)
    let mime : String = or_empty_text job.detected_mime
    by_decision (decide svc.policy mime (svc.size bytes)) mime (svc.size bytes)

  -- The body of the `try`.
  pub identify : FilePath → Step B Job
  unfolding unless_duplicate
  identify path = do
    job ← gets (λ s. s.job)
    let dest : FilePath = record {
      folder = workdir job.id;
      name = str_append "source" (svc.suffix path.name);
    }
    modify_job (λ j. record j { status = Jobs.detecting })
    move_file path dest
    modify_job (λ j. record j { source_path = dest; status = Jobs.hashing })
    bytes ← read_file dest
    sha ← or_raise (svc.sha256 bytes) "unreadable file"
    modify_job (λ j. record j { sha256 = some sha })
    mime ← or_raise (svc.detect bytes) "undetected type"
    modify_job (λ j. record j { detected_mime = some mime })
    update_job
    modify (audit svc identified none (("mime", words mime) ∷ ("sha256", words sha) ∷ []))
    original ← gets find_original
    unless_duplicate original bytes

  abbrev pub received_job : String → ℕ → FilePath → Job
  received_job id at path = record {
    id = id;
    tenant_id = svc.tenant_id;
    document_id = none;
    source_path = path;
    status = Jobs.queued;
    detected_mime = none;
    sha256 = none;
    error_code = none;
    error_message = none;
    started_at = some at;
    finished_at = none;
    metadata = ("original_ingest_path", place path) ∷ [];
  }

  -- except Exception as exc
  abbrev pub rescue : Tried Job → Step B Job
  rescue (value job) = pure job
  rescue (raised message) = fail svc "internal_error" message

  pub process_file : FilePath → Step B Job
  unfolding identify
  process_file path = do
    id ← new_id svc
    at ← read_clock svc
    modify (λ s. record s { job = received_job id at path })
    add_job
    modify (audit svc received none (("filename", words path.name) ∷ ("source", place path) ∷ []))
    λ s. let (r, s') = identify path s in rescue r s'
