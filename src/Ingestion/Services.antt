-- ===== src/Ingestion/Services.antt =====
-- What the pipeline of core/doktok_core/ingestion/pipeline.py depends on (IngestionServices), the
-- state that a run works on, and the steps of a run: a step may raise, and what was written before
-- it raised stays written.
use doktok_ng.Prelude.{ℕ, ◌+◌, Bool, Option, none, some, List, [], ◌∷◌, ◌++◌, String, if◌then◌else◌}
use doktok_ng.Security.Policy.{SecurityPolicy}
use doktok_ng.Documents.Document.{Document}
use doktok_ng.Documents.Store.{Store, Result, returned, value_error, duplicate_active, add}
use doktok_ng.Features.Ledger.{Ledger}
use doktok_ng.Jobs
use doktok_ng.Jobs.{IngestionJob, JobRepository, JobError}
use doktok_ng.Ingestion.Files.{Folder, FilePath}

-- The values of the metadata. A path stands for its text.
pub data Value : Type 0 where
  words : String → Value
  place : FilePath → Value
  number : ℕ → Value
  nothing : Value

abbrev pub Job : Type 0
Job = IngestionJob FilePath Value

-- What `extract_document` of extraction/service.py returns: the fields of ExtractionResult that the
-- pipeline reads, and whether there is a normalized PDF beside it.
pub record ExtractionResult : Type 0 where
  pub content_md : String
  pub extraction_method : String
  pub page_count : ℕ
  pub ocr_confidence : Value
  pub normalized_from_mime : Option String
  pub has_normalized_pdf : Bool

-- How `extract_document` ends: a result, or one of the errors that the pipeline or the extract stage
-- tells apart; `file_missing` is a FileNotFoundError.
pub data Extraction : Type 0 where
  extracted : ExtractionResult → Extraction
  needs_ocr too_many_pages render_limit file_missing other_error : String → Extraction

-- How the chunks and the entities of a document were stored: their counts, or the error.
pub data Indexing : Type 0 where
  indexed : ℕ → ℕ → Indexing
  index_error : String → Indexing

-- The ports and libraries behind the pipeline, as functions; `now` and the supplies of ids go by
-- the number of the call. Reading a file may fail, and so may writing the artifacts of a document:
-- a text is the error's.
pub record Services (B : Type 0) : Type 0 where
  pub tenant_id : String
  pub uuid : ℕ → String
  pub row_uuid : ℕ → String
  pub now : ℕ → ℕ
  pub sha256 : B → Option String
  pub detect : B → Option String
  pub size : B → ℕ
  pub policy : SecurityPolicy
  pub suffix : String → String
  pub stem : String → String
  pub guess_extension : String → Option String
  pub show : ℕ → String
  pub folder_text : Folder → String
  pub extract : String → B → Extraction
  pub detect_language : String → String
  pub write_error : String → ExtractionResult → Option String
  pub index : String → ExtractionResult → Indexing
  pub staged_ingestion : Bool
  pub stage_ledger : List (String × ℕ)
  pub has_feature_repo : Bool
  pub has_chunk_repo : Bool
  pub has_entity_repo : Bool
  pub has_audit_log : Bool

pub data AuditEvent : Type 0 where
  received identified was_duplicate was_failed was_quarantined was_activated : AuditEvent

pub record AuditEntry : Type 0 where
  pub event : AuditEvent
  pub job_id : String
  pub document_id : Option String
  pub details : List (String × Value)

-- The job at hand, which the pipeline changes in place, the files, the repositories, and how often
-- an id was drawn and the time was read.
pub record Ingest (B : Type 0) : Type 0 where
  pub job : Job
  pub files : List (FilePath × B)
  pub jobs : JobRepository FilePath Value
  pub store : Store Value
  pub ledger : Ledger
  pub trail : List AuditEntry
  pub drawn : ℕ
  pub ticks : ℕ

pub data Tried (A : Type 0) : Type 0 where
  value : A → Tried A
  raised : String → Tried A

abbrev pub Step : Type 0 → Type 0 → Type 0
Step B A = Ingest B → Tried A × Ingest B

abbrev pub continue : {B A C : Type 0} → Tried A → (A → Step B C) → Step B C
continue (value a) f s = f a s
continue (raised message) f s = (raised message, s)

infixl 5 ◌>>=◌ ◌>>◌
abbrev pub ◌>>=◌ : {B A C : Type 0} → Step B A → (A → Step B C) → Step B C
◌>>=◌ m f s = let (r, s') = m s in continue r f s'

abbrev pub ◌>>◌ : {B A C : Type 0} → Step B A → Step B C → Step B C
m >> k = m >>= λ _. k

abbrev pub pure : {B A : Type 0} → A → Step B A
pure a s = (value a, s)

abbrev pub raise : {B A : Type 0} → String → Step B A
raise message s = (raised message, s)

abbrev pub gets : {B A : Type 0} → (Ingest B → A) → Step B A
gets f s = (value (f s), s)

abbrev pub modify : {B : Type 0} → (Ingest B → Ingest B) → Step B Unit
modify f s = (value tt, f s)

abbrev pub set_job : {B : Type 0} → (Job → Job) → Ingest B → Ingest B
set_job f s = record s { job = f s.job }

abbrev pub modify_job : {B : Type 0} → (Job → Job) → Step B Unit
modify_job f = modify (set_job f)

abbrev pub or_raise : {B A : Type 0} → Option A → String → Step B A
or_raise none message = raise message
or_raise (some a) message = pure a

abbrev job_result : Option JobError → Tried Unit
job_result none = value tt
job_result (some Jobs.value_error) = raised "job already exists"
job_result (some Jobs.key_error) = raised "no such job"
job_result (some Jobs.permission_error) = raised "cannot move a job across tenants"

module _ {B : Type 0} where
  -- job_repo.add(job) and job_repo.update(job)
  abbrev pub add_job : Step B Unit
  add_job s = let (jobs', e) = Jobs.add s.job s.jobs in (job_result e, record s { jobs = jobs' })

  abbrev pub update_job : Step B Unit
  update_job s =
      let (jobs', e) = Jobs.update s.job s.jobs in (job_result e, record s { jobs = jobs' })

  -- document_repo.add(document), with what it gives or raises
  abbrev pub try_add_document : Document Value → Step B (Result Unit)
  try_add_document d s = let (store', r) = add d s.store in (value r, record s { store = store' })

  abbrev add_result : Result Unit → Step B Unit
  add_result (returned u) = pure u
  add_result value_error = raise "document already exists"
  add_result duplicate_active = raise "active document already exists"

  abbrev pub add_document : Document Value → Step B Unit
  add_document d = do r ← try_add_document d; add_result r

  module _ (svc : Services B) where
    abbrev pub new_id : Step B String
    new_id s = (value (svc.uuid s.drawn), record s { drawn = s.drawn + 1 })

    abbrev pub read_clock : Step B ℕ
    read_clock s = (value (svc.now s.ticks), record s { ticks = s.ticks + 1 })

    -- `_audit`
    abbrev pub audit : AuditEvent → Option String → List (String × Value) → Ingest B → Ingest B
    audit event document_id details s =
        let entry : AuditEntry = record {
          event = event;
          job_id = s.job.id;
          document_id = document_id;
          details = details;
        } in
        record s { trail = if svc.has_audit_log then s.trail ++ entry ∷ [] else s.trail }
