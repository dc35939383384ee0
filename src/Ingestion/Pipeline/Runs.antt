-- ===== src/Ingestion/Pipeline/Runs.antt =====
-- A whole run of the pipeline: `process_file` of core/doktok_core/ingestion/pipeline.py.
use Prim.Native.String.{◌++◌ as str_append}
use doktok_ng.Prelude.{
  ℕ, ◌+◌, ◌≡◌, refl, Option-cases, Bool, ◌&&◌, inl, inr, true, false, Option, none, some, [], ◌∷◌,
  ◌⊎◌, String, dict_get, dict_set, ltb, arith, if◌then◌else◌,
}
use doktok_ng.Security.Policy.{
  SecurityDecision, allow, quarantine as quarantine_file, reject, decide,
}
use doktok_ng.Jobs
use doktok_ng.Jobs.Updates.{add-new, update-registered}
use doktok_ng.Documents.Store.Adds.{add-inactive}
use doktok_ng.Ingestion.Files.{FilePath, workdir, failed_dir, file_at, put_file, remove_file}
use doktok_ng.Ingestion.Files.Laws.{file_at-put}
use doktok_ng.Ingestion.Services.{
  words, place, Job, Services, received, identified, Ingest, Tried, value, raised, set_job, audit,
}
use doktok_ng.Ingestion.Outcomes.{or_empty_text, relocate_source, handle_duplicate, fail}
use doktok_ng.Ingestion.Outcomes.Accounts.{
  Registered-set, get_set_self, Where, Where-Kept, at_source, Returns, Returns-map, Booked,
  Distinct, Fresh, Fresh-later, Accounted, Kept, Ended, Caught, Returns-Caught,
}
use doktok_ng.Ingestion.Outcomes.Settles.{
  Settled, fail-Accounted, fail-Ended, handle_duplicate-Ended, quarantine-Caught,
}
use doktok_ng.Ingestion.Pipeline.{
  processing_document, create_processing_document, by_decision, find_original, unless_duplicate,
  identify, received_job, rescue, process_file,
}
use doktok_ng.Ingestion.Activation.{activate}
use doktok_ng.Ingestion.Activation.Keeps.{activate-Caught}

module _ {B : Type 0} (svc : Services B) (distinct : Distinct svc) where
  pub create_processing_document-Ended :
      (bytes : B) (s : Ingest B)
      → Booked svc s
      → Where bytes s
      → Returns (Ended svc bytes) (create_processing_document svc s)
  unfolding create_processing_document
  create_processing_document-Ended bytes s (row, fresh) lies =
      let id = svc.uuid s.drawn in
      let d = processing_document svc s.job id (svc.now s.ticks) in
      let job : Job = record s.job {
        document_id = some id;
        status = Jobs.active;
        finished_at = some (svc.now s.ticks);
      } in
      let added = add-inactive d s.store (fresh s.drawn (omega arith)) refl in
      let updated = update-registered job row.row s.jobs row.at row.same in
      rw added (
        rw updated (
          record {
            stored = get_set_self s.jobs s.job.id job;
            id = id;
            named = refl;
            document = d;
            there = get_set_self s.store.docs id d;
            owner = refl;
            status = refl;
          },
          inr (Where-Kept bytes s lies),
        ))

  by_decision-Caught :
      (decision : SecurityDecision) (mime : String) (size : ℕ) (name : String) (bytes : B)
      (s : Ingest B)
      → Booked svc s
      → s.job.source_path ≡ record { folder = workdir s.job.id; name = name }
      → file_at s.files (record { folder = workdir s.job.id; name = name }) ≡ some bytes
      → Caught svc bytes (by_decision svc decision mime size s)
  unfolding by_decision
  by_decision-Caught quarantine_file mime size name bytes s booked src h =
      quarantine-Caught svc bytes name s booked src h
  by_decision-Caught reject mime size name bytes s booked src h =
      let code = if ltb svc.policy.max_file_bytes size then "too_large" else "unsupported_type" in
      let message =
        str_append "rejected mime=" (str_append mime (str_append " size=" (svc.show size))) in
      Returns-Caught svc bytes (fail svc code message s)
        (fail-Ended svc code message bytes s booked (at_source (rw src h)))
  by_decision-Caught allow mime size name bytes s booked src h =
      go (svc.staged_ingestion && svc.has_feature_repo)
    where
      go :
          (b : Bool)
          → Caught svc bytes ((if b then create_processing_document svc else activate svc) s)
      go true =
          Returns-Caught svc bytes (create_processing_document svc s)
            (create_processing_document-Ended bytes s booked (at_source (rw src h)))
      go false = activate-Caught svc distinct name bytes s booked src h

  unless_duplicate-Caught :
      (original : Option String) (name : String) (bytes : B) (s : Ingest B)
      → Booked svc s
      → s.job.source_path ≡ record { folder = workdir s.job.id; name = name }
      → file_at s.files (record { folder = workdir s.job.id; name = name }) ≡ some bytes
      → Caught svc bytes (unless_duplicate svc original bytes s)
  unfolding unless_duplicate
  unless_duplicate-Caught (some original) name bytes s booked src h =
      Returns-Caught svc bytes (handle_duplicate svc original s)
        (handle_duplicate-Ended svc original bytes s booked)
  unless_duplicate-Caught none name bytes s booked src h =
      let mime = or_empty_text s.job.detected_mime in
      by_decision-Caught (decide svc.policy mime (svc.size bytes)) mime (svc.size bytes) name bytes
        s booked src h

  identify-Caught :
      (path : FilePath) (bytes : B) (s : Ingest B)
      → Booked svc s
      → file_at s.files path ≡ some bytes
      → Caught svc bytes (identify svc path s)
  unfolding identify
  identify-Caught path bytes s (row, fresh) h =
      let name = str_append "source" (svc.suffix path.name) in
      let dest : FilePath = record { folder = workdir s.job.id; name = name } in
      let files = put_file (remove_file s.files path) dest bytes in
      let arrived : file_at files dest ≡ some bytes =
        file_at-put (remove_file s.files path) dest bytes in
      let source = at_source arrived in
      rw h (
        rw arrived (elim (Option-cases (svc.sha256 bytes)) [
          | inl e ↦ rw e ((row, fresh), source)
          | inr (sha, e) ↦ rw e (elim (Option-cases (svc.detect bytes)) [
            | inl e' ↦ rw e' ((row, fresh), source)
            | inr (mime, e') ↦
                let job : Job = record s.job {
                  source_path = dest;
                  status = Jobs.hashing;
                  sha256 = some sha;
                  detected_mime = some mime;
                } in
                let jobs = dict_set s.jobs s.job.id job in
                let updated = update-registered job row.row s.jobs row.at row.same in
                let details = ("mime", words mime) ∷ ("sha256", words sha) ∷ [] in
                let s' =
                  audit svc identified none details
                    (record s { job = job; files = files; jobs = jobs }) in
                rw e' (
                  rw updated (
                    unless_duplicate-Caught (find_original svc s') name bytes s'
                      (Registered-set s.jobs job, fresh) refl arrived))
          ])
        ]))

  rescue-Ended :
      (bytes : B) (r : Tried Job × Ingest B)
      → Caught svc bytes r
      → Returns (Ended svc bytes) (rescue svc r.0 r.1)
  rescue-Ended bytes (value job, s) ended = ended
  rescue-Ended bytes (raised message, s) (booked, lies) =
      fail-Ended svc "internal_error" message bytes s booked lies

  -- The state when the file has been received.
  abbrev received_state : FilePath → Ingest B → Ingest B
  received_state path s =
      let job = received_job svc (svc.uuid s.drawn) (svc.now s.ticks) path in
      audit svc received none (("filename", words path.name) ∷ ("source", place path) ∷ [])
        (record s {
          job = job;
          jobs = dict_set s.jobs job.id job;
          drawn = s.drawn + 1;
          ticks = s.ticks + 1;
        })

  received-Booked :
      (path : FilePath) (s : Ingest B)
      → Fresh svc s.drawn s.store.docs
      → Booked svc (received_state path s)
  received-Booked path s fresh =
      let job = received_job svc (svc.uuid s.drawn) (svc.now s.ticks) path in
      (Registered-set s.jobs job, Fresh-later svc s.drawn s.store.docs fresh)

  -- A run of `process_file` on a file that is there.
  run-Ended :
      (path : FilePath) (bytes : B) (s : Ingest B)
      → dict_get s.jobs (svc.uuid s.drawn) ≡ none
      → Fresh svc s.drawn s.store.docs
      → file_at s.files path ≡ some bytes
      → Returns (Ended svc bytes) (process_file svc path s)
  unfolding process_file
  run-Ended path bytes s unknown fresh h =
      let job = received_job svc (svc.uuid s.drawn) (svc.now s.ticks) path in
      let s' = received_state path s in
      rw (add-new job s.jobs unknown) (
        rescue-Ended bytes (identify svc path s')
          (identify-Caught path bytes s' (received-Booked path s fresh) h))

  -- A run on a path where there is no file.
  run_missing :
      (path : FilePath) (s : Ingest B)
      → dict_get s.jobs (svc.uuid s.drawn) ≡ none
      → Fresh svc s.drawn s.store.docs
      → file_at s.files path ≡ none
      → Returns (Accounted svc) (process_file svc path s)
  unfolding process_file identify
  run_missing path s unknown fresh h =
      let job = received_job svc (svc.uuid s.drawn) (svc.now s.ticks) path in
      let s' = set_job (λ j. record j { status = Jobs.detecting }) (received_state path s) in
      let failed =
        fail-Accounted svc "internal_error" "no such file" s' (received-Booked path s fresh) in
      rw (add-new job s.jobs unknown) (
        rw h (
          Returns-map
            (Settled svc (relocate_source svc (failed_dir s'.job.id) s').files Jobs.failed)
            (Accounted svc) (fail svc "internal_error" "no such file" s') (λ _ _ settled. settled.0)
            failed))

  -- If the ids that are drawn are new and differ, `process_file` returns a job and never raises,
  -- whatever its services answer and whether the file is there or not: the job's row is the job, and
  -- the job names a document of the tenant whose status belongs to that of the job: active or
  -- processing for an active job, and failed, quarantined or duplicate for one that ended so.
  pub process_file-Accounted :
      (path : FilePath) (s : Ingest B)
      → dict_get s.jobs (svc.uuid s.drawn) ≡ none
      → Fresh svc s.drawn s.store.docs
      → Returns (Accounted svc) (process_file svc path s)
  process_file-Accounted path s unknown fresh = elim (Option-cases (file_at s.files path)) [
    | inl missing ↦ run_missing path s unknown fresh missing
    | inr (bytes, h) ↦
        Returns-map (Ended svc bytes) (Accounted svc) (process_file svc path s)
          (λ _ _ ended. ended.0) (run-Ended path bytes s unknown fresh h)
  ]

  -- If the ids that are drawn are new and differ, and the file is there, `process_file` returns a
  -- job, and unless the job is a duplicate, some path holds the bytes of the file afterwards,
  -- whatever failed on the way.
  pub process_file-keeps :
      (path : FilePath) (bytes : B) (s : Ingest B)
      → dict_get s.jobs (svc.uuid s.drawn) ≡ none
      → Fresh svc s.drawn s.store.docs
      → file_at s.files path ≡ some bytes
      → Returns (λ job s'. (job.status ≡ Jobs.duplicate) ⊎ Kept bytes s') (process_file svc path s)
  process_file-keeps path bytes s unknown fresh h =
      Returns-map (Ended svc bytes) (λ job s'. (job.status ≡ Jobs.duplicate) ⊎ Kept bytes s')
        (process_file svc path s) (λ _ _ ended. ended.1) (run-Ended path bytes s unknown fresh h)
