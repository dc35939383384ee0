-- ===== src/Ingestion/Activation.antt =====
-- `_activate` of core/doktok_core/ingestion/pipeline.py, and what follows the extraction, the
-- document's row and the indexing.
pub mod Keeps
use Prim.Native.String.{◌++◌ as str_append}
use doktok_ng.Prelude.{
  ℕ, ◌+◌, Bool, true, false, ◌&&◌, Option, none, some, List, [], ◌∷◌, ◌++◌, String, str_eq, ltb,
  if◌then◌else◌, dict_get,
}
use doktok_ng.Security.Policy.{
  SecurityDecision, allow, quarantine as quarantine_file, reject, decide,
}
use doktok_ng.Features.Ledger.{seed_for_document, record_done}
use doktok_ng.Documents.Document
use doktok_ng.Documents.Document.{Document, DocumentStatus}
use doktok_ng.Documents.Store.{
  Result, returned, value_error, duplicate_active, find_active_by_sha256, find_unfinished_by_sha256,
  delete,
}
use doktok_ng.Jobs
use doktok_ng.Ingestion.Files.{Folder, FilePath, workdir, active_dir, file_at, move, rmtree}
use doktok_ng.Ingestion.Services.{
  Value, words, place, number, Job, Services, ExtractionResult, Extraction, extracted, needs_ocr,
  too_many_pages, render_limit, file_missing, other_error, Indexing, indexed, index_error, received,
  identified, was_activated, Ingest, Step, Tried, value, raised, ◌>>=◌, ◌>>◌, pure, raise, gets,
  modify, modify_job, set_job, or_raise, add_job, update_job, try_add_document, add_document,
  new_id, read_clock, audit,
}
use doktok_ng.Ingestion.Outcomes.{
  original_filename, or_empty_text, title_of, handle_duplicate, fail, quarantine,
}
use doktok_ng.Ingestion.Artifacts.{
  extension_for, move_file, read_file, artifact_path, write_document_artifacts,
}

-- `_ACTIVATION_SUMMARY`
pub activation_summary : List (String × String)
activation_summary =
    ("text", "Parsed plain text")
    ∷ ("markdown", "Parsed Markdown")
    ∷ ("pdf_text", "Extracted embedded PDF text")
    ∷ ("ocr", "OCR'd page images; searchable PDF created")
    ∷ ("pdf_mixed", "Mixed PDF: embedded text kept, scanned pages OCR'd")
    ∷ []

module _ {B : Type 0} (svc : Services B) where
  abbrev pub normalized_entry : Option String → List (String × Value)
  normalized_entry none = []
  normalized_entry (some mime) = if str_eq mime "" then [] else ("normalized_from", words mime) ∷ []

  -- NORMALIZED_PDF_REL, or the copy of the original
  abbrev pub system_document : ExtractionResult → FilePath → String
  system_document result original =
      if result.has_normalized_pdf
      then "normalized/searchable.pdf"
      else str_append "normalized/" original.name

  -- The document of `_activate`.
  abbrev pub active_document : Job → String → ℕ → ExtractionResult → FilePath → Document Value
  active_document job id at result original = record {
    id = id;
    tenant_id = svc.tenant_id;
    current_version_id = none;
    sha256 = or_empty_text job.sha256;
    original_filename = original_filename job;
    detected_mime = job.detected_mime;
    title = some (title_of svc (original_filename job));
    title_source = "auto";
    status = Document.active;
    storage_path = some (svc.folder_text (active_dir id));
    created_at = at;
    activated_at = some at;
    ingested_at = some at;
    document_date = none;
    location = none;
    summary = none;
    unidentifiable = none;
    duplicate_of = none;
    metadata =
        ("extraction_method", words result.extraction_method)
          ∷ ("page_count", number result.page_count)
          ∷ ("ocr_confidence", result.ocr_confidence)
          ∷ normalized_entry result.normalized_from_mime
        ++ ("language", words (svc.detect_language result.content_md))
          ∷ ("original", words original.name)
          ∷ ("system_document", words (system_document result original))
          ∷ [];
  }

  -- The document of `_create_processing_document`.
  -- `_record_features_done`
  abbrev done_if : Bool → ℕ → String → String → ℕ → Ingest B → Ingest B
  done_if wired at id feature version s = record s {
    ledger =
        if wired
        then record_done svc.row_uuid at svc.tenant_id id feature version s.ledger
        else s.ledger;
  }

  pub record_features_done : String → Step B Unit
  record_features_done id = do
    at ← read_clock svc
    modify (done_if svc.has_feature_repo at id "extract" 1)
    modify (done_if (svc.has_feature_repo && svc.has_chunk_repo) at id "chunk_embed" 2)
    modify (done_if (svc.has_feature_repo && svc.has_entity_repo) at id "entities" 4)

  abbrev summary_base : Option String → String → String
  summary_base (some base) method = base
  summary_base none method = str_append "Extracted (" (str_append method ")")

  -- `_activation_summary`
  abbrev activation_summary_of : String → ℕ → String
  activation_summary_of method pages =
      str_append (summary_base (dict_get activation_summary method) method)
        (str_append " (" (str_append (svc.show pages) " page(s))"))

  -- The details of the audit entry of an activation.
  abbrev activated_details : Job → ExtractionResult → FilePath → ℕ → ℕ → List (String × Value)
  activated_details job result original chunks entities =
      ("filename", words (original_filename job))
      ∷ ("extraction_method", words result.extraction_method)
      ∷ ("page_count", number result.page_count)
      ∷ ("ocr_confidence", result.ocr_confidence)
      ∷ ("chunk_count", number chunks)
      ∷ ("entity_count", number entities)
      ∷ ("language", words (svc.detect_language result.content_md))
      ∷ ("system_document", words (system_document result original))
      ∷ ("summary", words (activation_summary_of result.extraction_method result.page_count))
      ∷ []

  pub after_index : String → ℕ → FilePath → ExtractionResult → Indexing → Step B Job
  unfolding record_features_done
  after_index id at original result (indexed chunks entities) = do
    record_features_done id
    modify_job
        (λ j. record j { document_id = some id; status = Jobs.active; finished_at = some at })
    modify (λ s. record s { files = rmtree (workdir s.job.id) s.files })
    update_job
    job ← gets (λ s. s.job)
    modify
        (audit svc was_activated (some id) (activated_details job result original chunks entities))
    gets (λ s. s.job)
  after_index id at original result (index_error message) = do
    modify_job (λ j. record j { source_path = original })
    modify (λ s. record s { store = delete svc.tenant_id id s.store })
    failed_job ← fail svc "indexing_error" message
    modify (λ s. record s { files = rmtree (active_dir id) s.files })
    pure failed_job

  pub after_add : String → ℕ → FilePath → ExtractionResult → Result Unit → Step B Job
  unfolding after_index
  after_add id at original result (returned u) = do
    modify_job (λ j. record j { status = Jobs.indexing })
    update_job
    after_index id at original result (svc.index id result)
  after_add id at original result duplicate_active = do
    modify (λ s. record s { files = rmtree (active_dir id) s.files })
    winner ← gets (λ s. find_active_by_sha256 svc.tenant_id (or_empty_text s.job.sha256) s.store)
    handle_duplicate svc (or_empty_text winner)
  after_add id at original result value_error = raise "document already exists"

  pub publish : ExtractionResult → Step B Job
  unfolding after_add write_document_artifacts
  publish result = do
    id ← new_id svc
    modify_job (λ j. record j { status = Jobs.activating })
    update_job
    job ← gets (λ s. s.job)
    original ←
        write_document_artifacts svc id job.source_path job.detected_mime (original_filename job)
          result
    at ← read_clock svc
    r ← try_add_document (active_document job id at result original)
    after_add id at original result r

  pub after_extract : Extraction → Step B Job
  unfolding publish
  after_extract (extracted result) = publish result
  after_extract (needs_ocr message) = fail svc "needs_ocr" message
  after_extract (too_many_pages message) = fail svc "too_many_pages" message
  after_extract (render_limit message) = fail svc "render_limit_exceeded" message
  after_extract (file_missing message) = raise message
  after_extract (other_error message) = raise message

  -- `_activate`
  unfoldable pub activate : Step B Job
  unfolding after_extract
  activate = do
    modify_job (λ j. record j { status = Jobs.extracting })
    update_job
    job ← gets (λ s. s.job)
    bytes ← read_file job.source_path
    after_extract (svc.extract (or_empty_text job.detected_mime) bytes)
