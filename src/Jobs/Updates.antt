-- ===== src/Jobs/Updates.antt =====
-- What the writes of the job repository do where they do not raise:
-- core/doktok_core/ingestion/inmemory.py.
use doktok_ng.Prelude.{◌≡◌, refl, true, Option, none, some, str_eq, dict_get, dict_set}
use doktok_ng.Jobs.{IngestionJob, JobRepository, JobError, add, add_found, update, update_found}

module _ {P V : Type 0} where
  pub add-new :
      (job : IngestionJob P V) (s : JobRepository P V)
      → dict_get s job.id ≡ none
      → ◌≡◌ {A = JobRepository P V × Option JobError} (add job s) (dict_set s job.id job, none)
  unfolding add add_found
  add-new job s h = rw h refl

  pub update-registered :
      (job old : IngestionJob P V) (s : JobRepository P V)
      → dict_get s job.id ≡ some old
      → str_eq old.tenant_id job.tenant_id ≡ true
      → ◌≡◌ {A = JobRepository P V × Option JobError} (update job s) (dict_set s job.id job, none)
  unfolding update update_found
  update-registered job old s h same = rw h (rw same refl)
