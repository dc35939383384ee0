-- ===== src/Ingestion/Recovery.antt =====
-- The recovery of the jobs that a dead worker has left: `recover_stale_jobs`, `_requeue_stale_job`,
-- `_crash_strikes` and `_quarantine_crash_loop` of core/doktok_core/ingestion/pipeline.py.
pub mod Requeues
pub mod Runs
use Prim.Native.String.{◌++◌ as str_append, [] as str_nil, ◌∷◌ as str_cons}
use doktok_ng.Prelude.{
  ℕ, zero, suc, ◌+◌, Bool, true, false, not, ◌&&◌, Option, none, some, List, [], ◌∷◌, String,
  str_eq, leb, ◌==◌, count, if◌then◌else◌,
}
use doktok_ng.Documents.Document
use doktok_ng.Documents.Store.{find_processing_by_staged_source}
use doktok_ng.Jobs
use doktok_ng.Jobs.{is_text, list_in_flight, find_by_sha256}
use doktok_ng.Ingestion.Files.{
  Folder, ingest, workdir, quarantine_dir, FilePath, same_path, file_at, move_if_there, rmtree,
}
use doktok_ng.Ingestion.Services.{
  Value, words, place, number, nothing, Job, Services, was_quarantined, Ingest, Step, Tried, value,
  raised, ◌>>=◌, ◌>>◌, pure, gets, modify, modify_job, set_job, update_job, read_clock, audit,
}
use doktok_ng.Ingestion.Outcomes.{original_filename, or_empty_text, record_terminal_document}

-- MAX_STALE_RECOVERIES
abbrev pub max_stale_recoveries : ℕ
max_stale_recoveries = 2

-- `==` between values of the metadata
abbrev pub same_value : Value → Value → Bool
same_value (words a) (words b) = str_eq a b
same_value (place p) (place q) = same_path p q
same_value (number a) (number b) = a == b
same_value nothing nothing = true
same_value _ _ = false

-- text[:n]
pub first_chars : ℕ → String → String
first_chars zero text = ""
first_chars (suc n) str_nil = ""
first_chars (suc n) (str_cons c text) = str_cons c (first_chars n text)

abbrev pub is_file : {B : Type 0} → Option B → Bool
is_file none = false
is_file (some b) = true

abbrev pub or_hash : Option String → Option String → Option String
or_hash none hash = hash
or_hash (some sha) hash = if str_eq sha "" then hash else some sha

-- no tombstones are known for a file without a hash
abbrev pub strikes_of : Option String → String → List Job → ℕ
strikes_of none id prior = 0
strikes_of (some sha) id prior =
    count (λ j. not (str_eq j.id id) && is_text j.error_code "worker_crash_recovered") prior

-- the path in the ingest folder that the file goes back to
abbrev pub requeue_path : {B : Type 0} → Job → List (FilePath × B) → FilePath
requeue_path job files =
    let name = original_filename job in
    let dest : FilePath = record { folder = ingest; name = name } in
    if is_file (file_at files dest)
    then record { folder = ingest; name = str_append (first_chars 8 job.id) (str_append "_" name) }
    else dest

-- except Exception: return False
abbrev pub recovered_if : Tried Bool → Bool
recovered_if (value b) = b
recovered_if (raised message) = false

module _ {B : Type 0} (svc : Services B) where
  abbrev hash_of : Option B → Option String
  hash_of none = none
  hash_of (some bytes) = svc.sha256 bytes

  -- job.sha256, or the hash of the source where it can be read
  abbrev known_hash : Ingest B → Option String
  known_hash s = or_hash s.job.sha256 (hash_of (file_at s.files s.job.source_path))

  -- `_crash_strikes`; an empty hash counts as none
  pub crash_strikes : Ingest B → ℕ
  crash_strikes s =
      let sha = known_hash s in
      if is_text sha ""
      then 0
      else strikes_of sha s.job.id (find_by_sha256 svc.tenant_id (or_empty_text sha) s.jobs)

  -- `_requeue_stale_job`, past the handoff and the strikes
  pub requeue_file : Step B Bool
  requeue_file = do
    modify (λ s. record s {
      files = move_if_there s.job.source_path (requeue_path s.job s.files) s.files;
    })
    at ← read_clock svc
    modify_job (λ j. record j {
      status = Jobs.failed;
      error_code = some "worker_crash_recovered";
      error_message = some "abandoned mid-pipeline (worker died); file re-queued for a fresh job";
      finished_at = some at;
    })
    update_job
    modify (λ s. record s { files = rmtree (workdir s.job.id) s.files })
    pure true

  -- `_quarantine_crash_loop`
  pub quarantine_crash_loop : ℕ → Step B Bool
  quarantine_crash_loop strikes = do
    at ← read_clock svc
    let times = str_append "abandoned mid-pipeline " (svc.show (strikes + 1))
    let message = str_append times " times (worker crash suspected); quarantined"
    modify_job (λ j. record j {
      status = Jobs.quarantined;
      error_code = some "crash_loop";
      error_message = some message;
      finished_at = some at;
    })
    modify (λ s.
        let dest : FilePath = record {
          folder = quarantine_dir s.job.id;
          name = original_filename s.job;
        } in
        record s { files = move_if_there s.job.source_path dest s.files })
    dest ← gets (λ s. quarantine_dir s.job.id)
    id ← record_terminal_document svc Document.quarantined dest none []
    modify_job (λ j. record j { document_id = some id })
    update_job
    modify (λ s. record s { files = rmtree (workdir s.job.id) s.files })
    modify (λ s.
        audit svc was_quarantined none
          (("filename", words (original_filename s.job)) ∷ ("reason", words message) ∷ []) s)
    pure true

  -- A processing document may own the source already.
  pub by_owner : Option String → Step B Bool
  unfolding requeue_file quarantine_crash_loop
  by_owner (some id) = do
    at ← read_clock svc
    modify_job
        (λ j. record j { document_id = some id; status = Jobs.active; finished_at = some at })
    update_job
    pure true
  by_owner none = do
    strikes ← gets crash_strikes
    if leb max_stale_recoveries strikes then quarantine_crash_loop strikes else requeue_file

  -- The body of the `try` of `_requeue_stale_job`.
  pub try_requeue : Step B Bool
  unfolding by_owner
  try_requeue = do
    owner ← gets (λ s.
        find_processing_by_staged_source same_value svc.tenant_id (place s.job.source_path) s.store)
    by_owner owner

  unfoldable pub requeue_stale_job : Job → Ingest B → Bool × Ingest B
  unfolding try_requeue
  requeue_stale_job job s =
      let (r, s') = try_requeue (record s { job = job }) in (recovered_if r, s')

  pub recover_each : List Job → Ingest B → List Job × Ingest B
  unfolding requeue_stale_job
  recover_each [] s = ([], s)
  recover_each (job ∷ jobs) s =
      let (done, s') = requeue_stale_job job s in
      let (others, s'') = recover_each jobs s' in (if done then s'.job ∷ others else others, s'')

  pub recover_stale_jobs : ℕ → Ingest B → List Job × Ingest B
  unfolding recover_each
  recover_stale_jobs older_than s = recover_each (list_in_flight svc.tenant_id older_than s.jobs) s
