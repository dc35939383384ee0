-- ===== src/Ingestion/Recovery/Requeues.antt =====
-- What a recovery leaves of the jobs and of their files: `recover_stale_jobs` of
-- core/doktok_core/ingestion/pipeline.py.
use Prim.Native.String.{◌++◌ as str_append}
use doktok_ng.Prelude.{
  ℕ, ◌+◌, ◌≡◌, refl, ◌∙◌, inl, inr, Bool-cases, Bool, true, false, Option, none, some, List, [],
  String, str_eq, leb, dict_get, dict_set, get-set, str_eq_self,
}
use doktok_ng.Documents.Document
use doktok_ng.Documents.Document.{Document}
use doktok_ng.Documents.Store.{find_processing_by_staged_source}
use doktok_ng.Jobs
use doktok_ng.Jobs.{JobRepository, is_terminal, list_in_flight}
use doktok_ng.Jobs.Updates.{update-registered}
use doktok_ng.Ingestion.Files.{
  ingest, workdir, quarantine_dir, FilePath, same_folder, file_at, move_if_there,
}
use doktok_ng.Ingestion.Files.Laws.{file_at-move, file_at-rmtree}
use doktok_ng.Ingestion.Services.{Value, place, Job, Services, Ingest, Tried}
use doktok_ng.Ingestion.Outcomes.{original_filename}
use doktok_ng.Ingestion.Outcomes.Accounts.{
  Registered, get_set_self, Kept, Distinct, Fresh, Fresh-set, Booked,
}
use doktok_ng.Ingestion.Outcomes.Settles.{record_terminal_document-recorded}
use doktok_ng.Ingestion.Recovery.{
  max_stale_recoveries, same_value, is_file, requeue_path, requeue_file, quarantine_crash_loop,
  crash_strikes, by_owner, try_requeue, recovered_if, requeue_stale_job,
}

-- The row with this id is the tenant's and has a terminal status.
pub record Ended (jobs : JobRepository FilePath Value) (tenant id : String) : Type 0 where
  pub row : Job
  pub at : dict_get jobs id ≡ some row
  pub owner : row.tenant_id ≡ tenant
  pub terminal : is_terminal row.status ≡ true

module _ {B : Type 0} (svc : Services B) (distinct : Distinct svc) where
  requeue_path-ingest :
      (job : Job) (files : List (FilePath × B))
      → same_folder (requeue_path job files).folder (workdir job.id) ≡ false
  requeue_path-ingest job files =
      let first : FilePath = record { folder = ingest; name = original_filename job } in
      elim (Bool-cases (is_file (file_at files first))) [ inl e ↦ rw e refl | inr e ↦ rw e refl ]

  -- A step has ended the job at hand, and has lost no file of it.
  pub record Taken (s : Ingest B) (r : Tried Bool × Ingest B) : Type 0 where
    pub done : recovered_if r.0 ≡ true
    pub row : Job
    pub jobs : r.1.jobs ≡ dict_set s.jobs s.job.id row
    pub owner : row.tenant_id ≡ s.job.tenant_id
    pub terminal : is_terminal row.status ≡ true
    pub fresh : Fresh svc r.1.drawn r.1.store.docs
    pub kept : (bytes : B) → file_at s.files s.job.source_path ≡ some bytes → Kept bytes r.1

  requeue_file-Taken : (s : Ingest B) → Booked svc s → Taken s (requeue_file svc s)
  unfolding requeue_file
  requeue_file-Taken s (row, fresh) =
      let job : Job = record s.job {
        status = Jobs.failed;
        error_code = some "worker_crash_recovered";
        error_message = some "abandoned mid-pipeline (worker died); file re-queued for a fresh job";
        finished_at = some (svc.now s.ticks);
      } in
      let dest = requeue_path s.job s.files in
      let files = move_if_there s.job.source_path dest s.files in
      let updated = update-registered job row.row s.jobs row.at row.same in
      rw updated (record {
        done = refl;
        row = job;
        jobs = refl;
        owner = refl;
        terminal = refl;
        fresh = fresh;
        kept = λ bytes h. (
          dest,
          file_at-rmtree (workdir s.job.id) files dest (requeue_path-ingest s.job s.files)
              ∙ file_at-move s.job.source_path dest s.files bytes h,
        );
      })

  quarantine_crash_loop-Taken :
      (strikes : ℕ) (s : Ingest B) → Booked svc s → Taken s (quarantine_crash_loop svc strikes s)
  unfolding quarantine_crash_loop
  quarantine_crash_loop-Taken strikes s (row, fresh) =
      let times = str_append "abandoned mid-pipeline " (svc.show (strikes + 1)) in
      let message = str_append times " times (worker crash suspected); quarantined" in
      let job : Job = record s.job {
        status = Jobs.quarantined;
        error_code = some "crash_loop";
        error_message = some message;
        finished_at = some (svc.now s.ticks);
      } in
      let dest : FilePath = record {
        folder = quarantine_dir s.job.id;
        name = original_filename s.job;
      } in
      let files = move_if_there s.job.source_path dest s.files in
      let s' : Ingest B = record s { job = job; files = files; ticks = s.ticks + 1 } in
      let row_of_job : Job = record job { document_id = some (svc.uuid s.drawn) } in
      let recorded =
        record_terminal_document-recorded svc Document.quarantined dest.folder none [] s' refl
          fresh in
      let updated = update-registered row_of_job row.row s.jobs row.at row.same in
      rw recorded (
        rw updated (record {
          done = refl;
          row = row_of_job;
          jobs = refl;
          owner = refl;
          terminal = refl;
          fresh = Fresh-set svc distinct s.drawn s.store.docs _ fresh;
          kept = λ bytes h. (
            dest,
            file_at-rmtree (workdir s.job.id) files dest refl
                ∙ file_at-move s.job.source_path dest s.files bytes h,
          );
        }))

  by_owner-Taken :
      (owner : Option String) (s : Ingest B) → Booked svc s → Taken s (by_owner svc owner s)
  unfolding by_owner
  by_owner-Taken none s booked =
      elim (Bool-cases (leb max_stale_recoveries (crash_strikes svc s))) [
        | inl e ↦ rw e (quarantine_crash_loop-Taken (crash_strikes svc s) s booked)
        | inr e ↦ rw e (requeue_file-Taken s booked)
      ]
  by_owner-Taken (some id) s (row, fresh) =
      let job : Job = record s.job {
        document_id = some id;
        status = Jobs.active;
        finished_at = some (svc.now s.ticks);
      } in
      let updated = update-registered job row.row s.jobs row.at row.same in
      rw updated (record {
        done = refl;
        row = job;
        jobs = refl;
        owner = refl;
        terminal = refl;
        fresh = fresh;
        kept = λ bytes h. (s.job.source_path, h);
      })

  pub try_requeue-Taken : (s : Ingest B) → Booked svc s → Taken s (try_requeue svc s)
  unfolding try_requeue
  try_requeue-Taken s booked =
      let source = place s.job.source_path in
      by_owner-Taken (find_processing_by_staged_source same_value svc.tenant_id source s.store) s
        booked

  -- A stale job is the tenant's, and has a row.
  abbrev pub Stale : Ingest B → Job → Type 0
  Stale s job = Registered s.jobs job.id job.tenant_id × (job.tenant_id ≡ svc.tenant_id)

  pub requeue_stale_job-Ended :
      (job : Job) (s : Ingest B)
      → Stale s job
      → Fresh svc s.drawn s.store.docs
      → ((requeue_stale_job svc job s).0 ≡ true)
        × Ended (requeue_stale_job svc job s).1.jobs svc.tenant_id job.id
  unfolding requeue_stale_job
  requeue_stale_job-Ended job s (row, owner) fresh =
      let taken = try_requeue-Taken (record s { job = job }) (row, fresh) in
      (
        taken.done,
        record {
          row = taken.row;
          at = rw taken.jobs (get_set_self s.jobs job.id taken.row);
          owner = taken.owner ∙ owner;
          terminal = taken.terminal;
        },
      )

  -- If the ids that are drawn are new and differ, a stale job of the tenant has a row of the tenant,
  -- and its source is there, then requeueing it succeeds, whether it is completed, requeued or
  -- quarantined: its row has a terminal status and is the tenant's, and some path holds the bytes.
  pub requeue_stale_job-keeps :
      (job : Job) (bytes : B) (s : Ingest B)
      → Stale s job
      → Fresh svc s.drawn s.store.docs
      → file_at s.files job.source_path ≡ some bytes
      → ((requeue_stale_job svc job s).0 ≡ true)
        × Ended (requeue_stale_job svc job s).1.jobs svc.tenant_id job.id
        × Kept bytes (requeue_stale_job svc job s).1
  unfolding requeue_stale_job
  requeue_stale_job-keeps job bytes s (row, owner) fresh h =
      let taken = try_requeue-Taken (record s { job = job }) (row, fresh) in
      let (done, ended) = requeue_stale_job-Ended job s (row, owner) fresh in
      (done, ended, taken.kept bytes h)

  -- The row that a requeueing writes ends one job and keeps the others as they are.
  pub set-Ended :
      (jobs : JobRepository FilePath Value) (k id : String) (row : Job)
      → row.tenant_id ≡ svc.tenant_id
      → is_terminal row.status ≡ true
      → Ended jobs svc.tenant_id id
      → Ended (dict_set jobs k row) svc.tenant_id id
  set-Ended jobs k id row owner terminal ended = elim (Bool-cases (str_eq k id)) [
    | inl e ↦ record {
      row = row;
      at = rw (get-set jobs k id row) (rw e refl);
      owner = owner;
      terminal = terminal;
    }
    | inr e ↦ record {
      row = ended.row;
      at = rw (get-set jobs k id row) (rw e ended.at);
      owner = ended.owner;
      terminal = ended.terminal;
    }
  ]

  pub set-Stale :
      (jobs : JobRepository FilePath Value) (k : String) (row job : Job)
      → row.tenant_id ≡ svc.tenant_id
      → Registered jobs job.id job.tenant_id
      → job.tenant_id ≡ svc.tenant_id
      → Registered (dict_set jobs k row) job.id job.tenant_id
  set-Stale jobs k row job owner old mine = elim (Bool-cases (str_eq k job.id)) [
    | inl e ↦ record {
      row = row;
      at = rw (get-set jobs k job.id row) (rw e refl);
      same = rw owner (rw mine (str_eq_self svc.tenant_id));
    }
    | inr e ↦ record {
      row = old.row;
      at = rw (get-set jobs k job.id row) (rw e old.at);
      same = old.same;
    }
  ]
