-- ===== src/Ingestion/Outcomes.antt =====
-- How a run of the pipeline ends without an active document: `_relocate_source`,
-- `_record_terminal_document`, `_handle_duplicate`, `_fail` and `_quarantine` of
-- core/doktok_core/ingestion/pipeline.py.
pub mod Accounts
pub mod Settles
use Prim.Native.String.{◌++◌ as str_append}
use doktok_ng.Prelude.{
  ℕ, ◌+◌, Option, none, some, List, [], ◌∷◌, String, str_eq, if◌then◌else◌, dict_get, dict_set,
}
use doktok_ng.Documents.Document.{Document, DocumentStatus}
use doktok_ng.Documents.Document
use doktok_ng.Documents.Store.{merged}
use doktok_ng.Jobs
use doktok_ng.Jobs.{JobStatus}
use doktok_ng.Ingestion.Files.{
  Folder, FilePath, workdir, failed_dir, quarantine_dir, duplicates_dir, move_if_there, rmtree,
  has_files, replace_folder,
}
use doktok_ng.Ingestion.Services.{
  Value, words, place, nothing, Job, Services, AuditEvent, was_duplicate, was_failed,
  was_quarantined, Ingest, Step, ◌>>=◌, ◌>>◌, pure, raise, gets, modify, modify_job, set_job,
  update_job, add_document, new_id, read_clock, audit,
}

-- job.metadata.get("original_ingest_path", job.source_path); the pipeline puts a path there
abbrev original_path : Option Value → FilePath → FilePath
original_path (some (place p)) source = p
original_path (some v) source = source
original_path none source = source

-- `_original_filename`
abbrev pub original_filename : Job → String
original_filename job =
    let path = original_path (dict_get job.metadata "original_ingest_path") job.source_path in
    path.name

abbrev pub or_empty_text : Option String → String
or_empty_text none = ""
or_empty_text (some text) = text

-- a text, or None
abbrev pub text_value : Option String → Value
text_value none = nothing
text_value (some text) = words text

module _ {B : Type 0} (svc : Services B) where
  -- Path(original_filename).stem or original_filename
  abbrev pub title_of : String → String
  title_of name = if str_eq (svc.stem name) "" then name else svc.stem name

  -- `_relocate_source`, without the text of the folder that it returns
  abbrev pub relocate_source : Folder → Ingest B → Ingest B
  relocate_source dest s = record s {
    files = rmtree (workdir s.job.id) (
        move_if_there s.job.source_path (record { folder = dest; name = original_filename s.job })
          s.files);
  }

  -- The document of `_record_terminal_document`.
  abbrev pub terminal_document :
      Job
      → String
      → ℕ
      → DocumentStatus
      → Folder
      → Option String
      → List (String × Value)
      → Document Value
  terminal_document job id at status storage duplicate_of extra = record {
    id = id;
    tenant_id = svc.tenant_id;
    current_version_id = none;
    sha256 = or_empty_text job.sha256;
    original_filename = original_filename job;
    detected_mime = job.detected_mime;
    title = some (title_of (original_filename job));
    title_source = "auto";
    status = status;
    storage_path = some (svc.folder_text storage);
    created_at = at;
    activated_at = none;
    ingested_at = none;
    document_date = none;
    location = none;
    summary = none;
    unidentifiable = none;
    duplicate_of = duplicate_of;
    metadata =
        merged
          (("error_code", text_value job.error_code)
            ∷ ("error_message", text_value job.error_message)
            ∷ [])
          extra;
  }

  pub record_terminal_document :
      DocumentStatus → Folder → Option String → List (String × Value) → Step B String
  record_terminal_document status storage duplicate_of extra = do
    id ← new_id svc
    at ← read_clock svc
    job ← gets (λ s. s.job)
    add_document (terminal_document job id at status storage duplicate_of extra)
    pure id

  -- The end that the three outcomes share: the document's row, the job's row and the audit entry.
  pub settle :
      DocumentStatus
      → Folder
      → Option String
      → List (String × Value)
      → AuditEvent
      → List (String × Value)
      → Step B Job
  unfolding record_terminal_document
  settle status storage duplicate_of extra event details = do
    id ← record_terminal_document status storage duplicate_of extra
    modify_job (λ j. record j { document_id = some id })
    update_job
    modify (audit svc event (some id) details)
    gets (λ s. s.job)

  -- The assignments to the job with which each outcome begins.
  abbrev pub concluded : JobStatus → String → String → Ingest B → Ingest B
  concluded status code message s = record s {
    job = record s.job {
      status = status;
      error_code = some code;
      error_message = some message;
      finished_at = some (svc.now s.ticks);
    };
    ticks = s.ticks + 1;
  }

  pub handle_duplicate : String → Step B Job
  handle_duplicate original = do
    job ← gets (λ s. s.job)
    modify (
        concluded Jobs.duplicate "duplicate_hash"
          (str_append "already ingested as document " original))
    modify (λ s. relocate_source (duplicates_dir s.job.id) s)
    dest ← gets (λ s. duplicates_dir s.job.id)
    settle Document.duplicate dest (some original) (("duplicate_of", words original) ∷ [])
        was_duplicate
        (("duplicate_of", words original)
          ∷ ("sha256", text_value job.sha256)
          ∷ ("filename", words (original_filename job))
          ∷ [])

  pub fail : String → String → Step B Job
  fail code message = do
    job ← gets (λ s. s.job)
    modify (concluded Jobs.failed code message)
    modify (λ s. relocate_source (failed_dir s.job.id) s)
    dest ← gets (λ s. failed_dir s.job.id)
    settle Document.failed dest none [] was_failed (
        ("error_code", words code)
        ∷ ("error_message", words message)
        ∷ ("mime", text_value job.detected_mime)
        ∷ [])

  -- quarantine_service.quarantine(str(workdir), ...)
  abbrev replaced : Option (List (FilePath × B)) → Step B Unit
  replaced none = raise "quarantine folder is not empty"
  replaced (some fs) = modify (λ s. record s { files = fs })

  quarantine_workdir : Step B Unit
  quarantine_workdir s =
      if has_files (workdir s.job.id) s.files
      then replaced (replace_folder (workdir s.job.id) (quarantine_dir s.job.id) s.files) s
      else pure tt s

  pub quarantine : Step B Job
  unfolding quarantine_workdir
  quarantine = do
    job ← gets (λ s. s.job)
    let message = str_append "disallowed content type " (or_empty_text job.detected_mime)
    modify (concluded Jobs.quarantined "quarantined" message)
    quarantine_workdir
    settle Document.quarantined (quarantine_dir job.id) none [] was_quarantined
        (("mime", text_value job.detected_mime) ∷ ("reason", words message) ∷ [])
