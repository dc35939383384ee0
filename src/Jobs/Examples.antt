-- ===== src/Jobs/Examples.antt =====
-- The claim about the job repository at a concrete input.
use doktok_ng.Prelude.{refl, none, some, List, [], ◌∷◌, String}
use doktok_ng.Jobs.{IngestionJob, JobRepository, queued}
use doktok_ng.Jobs.Tenants.{
  TenantJobCall, add_job, update_job, delete_job, delete_jobs_of, job_calls, Holds,
  job_calls-other_tenants,
}

abbrev job_of : String → String → IngestionJob String String
job_of t id = record {
  id = id;
  tenant_id = t;
  document_id = some "d1";
  source_path = "/inbox/a.pdf";
  status = queued;
  detected_mime = none;
  sha256 = none;
  error_code = none;
  error_message = none;
  started_at = none;
  finished_at = none;
  metadata = [];
}

abbrev jobs : JobRepository String String
jobs = ("j1", job_of "acme" "j1") ∷ ("j2", job_of "bolt" "j2") ∷ []

-- Each call names the job or the document of the other tenant.
abbrev attempts : List (TenantJobCall String String "bolt")
attempts =
    add_job (job_of "bolt" "j1") refl
    ∷ update_job (job_of "bolt" "j1") refl
    ∷ delete_job "j1"
    ∷ delete_jobs_of "d1"
    ∷ []

job_calls-other_tenants_example :
    Holds "bolt" "j1" (job_of "acme" "j1") (job_calls "bolt" attempts jobs)
job_calls-other_tenants_example =
    job_calls-other_tenants "bolt" "j1" (job_of "acme" "j1") refl attempts jobs
      (record { keys = ((refl, tt), (tt, tt)); at = refl })
