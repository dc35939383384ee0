-- ===== src/Ingestion/Examples.antt =====
-- The claims about the ingestion at concrete inputs.
use Prim.Native.String.{◌∷◌ as str_cons, count}
use Prim.Native.String.count
use doktok_ng.Prelude.{
  ℕ, zero, suc, ◌≡◌, ◌⊎◌, refl, sym, ap, ◌∙◌, inl, inr, Bool-cases, true, false, none, some, [],
  ◌∷◌, String, str_eq, str_eq→eq, dict_get, arith, All, length,
}
use doktok_ng.Security.Policy.{new_policy, default_allowed_mimes, default_dangerous_mimes}
use doktok_ng.Jobs
use doktok_ng.Jobs.{list_in_flight}
use doktok_ng.Ingestion.Files.{ingest, active_dir, workdir, FilePath}
use doktok_ng.Ingestion.Services.{
  Value, Job, Services, ExtractionResult, extracted, nothing, indexed, Ingest,
}
use doktok_ng.Ingestion.Outcomes.Accounts.{Distinct, Returns, Accounted, Kept}
use doktok_ng.Ingestion.Pipeline.{
  processing_document, create_processing_document, process_file, received_job,
}
use doktok_ng.Ingestion.Outcomes.{or_empty_text}
use doktok_ng.Ingestion.Pipeline.Staged.{create_processing_document-StageEnd}
use doktok_ng.Ingestion.Pipeline.Runs.{process_file-Accounted, process_file-keeps}
use doktok_ng.Ingestion.Recovery.{requeue_stale_job, recover_stale_jobs}
use doktok_ng.Ingestion.Recovery.Requeues.{Ended, requeue_stale_job-keeps}
use doktok_ng.Ingestion.Recovery.Runs.{recover_stale_jobs_all}
use doktok_ng.Documents.Document
use doktok_ng.Documents.Document.{Document}
use doktok_ng.Documents.Store.{get}
use doktok_ng.Documents.Store.Finishes.{get-set_document}
use doktok_ng.Ingestion.ExtractStage.{process_document}
use doktok_ng.Ingestion.ExtractStage.Resumes.{StageEnd, left_over, process_document-StageEnd}
use doktok_ng.Ingestion.Interrupted.{fail_interrupted_processing}
use doktok_ng.Ingestion.Interrupted.Verdicts.{Verdict, fail_interrupted_processing-Verdict}

-- ids of growing length
abbrev nth_id : ℕ → String
nth_id zero = ""
nth_id (suc n) = str_cons "x" (nth_id n)

abbrev text_result : String → ExtractionResult
text_result text = record {
  content_md = text;
  extraction_method = "text";
  page_count = 1;
  ocr_confidence = nothing;
  normalized_from_mime = none;
  has_normalized_pdf = false;
}

abbrev services : Services String
services = record {
  tenant_id = "acme";
  uuid = nth_id;
  row_uuid = nth_id;
  now = λ n. n;
  sha256 = λ b. some b;
  detect = λ b. some "text/plain";
  size = λ b. 5;
  policy = new_policy 100 default_allowed_mimes default_dangerous_mimes;
  suffix = λ name. ".txt";
  stem = λ name. "note";
  guess_extension = λ mime. none;
  show = λ n. "1";
  folder_text = λ f. "docs";
  extract = λ mime b. extracted (text_result b);
  detect_language = λ text. "en";
  write_error = λ id result. none;
  index = λ id result. indexed 1 0;
  staged_ingestion = false;
  stage_ledger = [];
  has_feature_repo = true;
  has_chunk_repo = true;
  has_entity_repo = false;
  has_audit_log = true;
}

abbrev note : FilePath
note = record { folder = ingest; name = "note.txt" }

abbrev start : Ingest String
start = record {
  job = received_job services "" 0 note;
  files = (note, "hello") ∷ [];
  jobs = [];
  store = record { docs = [] };
  ledger = record { rows = []; active = []; drawn = 0 };
  trail = [];
  drawn = 0;
  ticks = 0;
}

count-nth_id : (n : ℕ) → count (nth_id n) ≡ n
count-nth_id zero = count.nil
count-nth_id (suc n) = count.cons "x" (nth_id n) ∙ ap suc (count-nth_id n)

nth_id-Distinct : Distinct services
nth_id-Distinct m n h = elim (Bool-cases (str_eq (nth_id m) (nth_id n))) [
  | inl e ↦
      let lengths =
        sym (count-nth_id m) ∙ ap count (str_eq→eq (nth_id m) (nth_id n) e) ∙ count-nth_id n in
      absurd (omega (arith, lengths))
  | inr e ↦ e
]

process_file-Accounted_example : Returns (Accounted services) (process_file services note start)
process_file-Accounted_example =
    process_file-Accounted services nth_id-Distinct note start refl (λ n le. refl)

process_file-keeps_example :
    Returns
      (λ job s'. (job.status ≡ Jobs.duplicate) ⊎ Kept "hello" s')
      (process_file services note start)
process_file-keeps_example =
    process_file-keeps services nth_id-Distinct note "hello" start refl (λ n le. refl) refl

-- A job that was left at the hashing, of which the row and the source are there.
abbrev left : Job
left = record (received_job services "j1" 0 note) {
  source_path = record { folder = workdir "j1"; name = "source.txt" };
  status = Jobs.hashing;
}

abbrev after_crash : Ingest String
after_crash = record start {
  files = (left.source_path, "hello") ∷ (note, "another") ∷ [];
  jobs = ("j1", left) ∷ [];
}

requeue_stale_job-keeps_example :
    ((requeue_stale_job services left after_crash).0 ≡ true)
    × Ended (requeue_stale_job services left after_crash).1.jobs "acme" "j1"
    × Kept "hello" (requeue_stale_job services left after_crash).1
requeue_stale_job-keeps_example =
    requeue_stale_job-keeps services nth_id-Distinct left "hello" after_crash
      (record { row = left; at = refl; same = refl }, refl) (λ n le. refl) refl

recover_stale_jobs_all_example :
    (length (recover_stale_jobs services 9 after_crash).0
      ≡ length (list_in_flight "acme" 9 after_crash.jobs))
    × All
        (λ job. Ended (recover_stale_jobs services 9 after_crash).1.jobs "acme" job.id)
        (list_in_flight "acme" 9 after_crash.jobs)
recover_stale_jobs_all_example =
    recover_stale_jobs_all services nth_id-Distinct 9 after_crash ((λ mine. refl), tt)
      (λ n le. refl)

-- A document that was taken in, of which a run that died has moved the file.
abbrev taken_in : Document Value
taken_in = processing_document services left "d1" 0

abbrev half_done : Ingest String
half_done = record start {
  files = (record { folder = active_dir "d1"; name = "original.txt" }, "hello") ∷ [];
  store = record { docs = ("d1", taken_in) ∷ [] };
}

document_there : get "acme" "d1" half_done.store ≡ some taken_in
document_there = get-set_document "acme" "d1" (record { docs = [] }) taken_in refl

process_document-StageEnd_example :
    StageEnd services "d1" taken_in "hello" half_done (process_document services "d1" half_done)
process_document-StageEnd_example =
    process_document-StageEnd services "d1" taken_in left.source_path "hello" half_done
      document_there refl refl
      (left_over (record { folder = active_dir "d1"; name = "original.txt" }) refl refl refl)

fail_interrupted_processing-Verdict_example :
    (e : Document Value) × (dict_get
        (fail_interrupted_processing services 5 half_done).0.store.docs
        "d1"
      ≡ some e)
    × Verdict services half_done.files half_done.ledger taken_in e
fail_interrupted_processing-Verdict_example =
    fail_interrupted_processing-Verdict services 5 "d1" taken_in half_done refl ((refl, refl), tt)
      document_there refl refl

-- The job that was left, at hand.
abbrev at_intake : Ingest String
at_intake = record after_crash { job = left }

create_processing_document-StageEnd_example :
    Returns
      (λ job s'.
        (id : String) × (d : Document Value) × (job.document_id ≡ some id)
        × (get "acme" id s'.store ≡ some d)
        × (d.sha256 ≡ or_empty_text left.sha256)
        × (d.status ≡ Document.processing)
        × StageEnd services id d "hello" s' (process_document services id s'))
      (create_processing_document services at_intake)
create_processing_document-StageEnd_example =
    create_processing_document-StageEnd services "hello" at_intake
      (record { row = left; at = refl; same = refl }, λ n le. refl) refl
