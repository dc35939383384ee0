-- ===== src/Ingestion/Activation/Keeps.antt =====
-- The job and the document that an activation leaves, and where the file is: `_activate` of core/doktok_core/ingestion/pipeline.py.
use doktok_ng.Prelude.{
  ℕ, ◌+◌, ◌≤◌, ◌≡◌, refl, ◌∙◌, Option-cases, inl, inr, false, none, some, String, arith, dict_get,
  dict_set,
}
use doktok_ng.Documents.Document
use doktok_ng.Documents.Document.{Document}
use doktok_ng.Documents.Store.{returned, duplicate_active, delete, find_active_by_sha256}
use doktok_ng.Documents.Store.Adds.{add-cases, delete-none}
use doktok_ng.Jobs
use doktok_ng.Jobs.Updates.{update-registered}
use doktok_ng.Ingestion.Files.{
  FilePath, workdir, active_dir, file_at, put_file, remove_file, rmtree, same_path,
}
use doktok_ng.Ingestion.Files.Laws.{file_at-rmtree, file_at-put, file_at-moved_away}
use doktok_ng.Ingestion.Services.{
  Value, Job, Services, ExtractionResult, Extraction, extracted, needs_ocr, too_many_pages,
  render_limit, file_missing, other_error, Indexing, indexed, index_error, Ingest,
}
use doktok_ng.Ingestion.Outcomes.{or_empty_text, original_filename, fail}
use doktok_ng.Ingestion.Outcomes.Accounts.{
  Registered, Registered-set, get_set_self, at_source, aside, Returns, Booked, Distinct, Fresh-set,
  Fresh-later, Accounted-files, Ended, Caught, Returns-Caught, Returns-continue,
}
use doktok_ng.Ingestion.Outcomes.Settles.{
  Parked, failed_path, fail-Parked, fail-Ended, handle_duplicate-Ended,
}
use doktok_ng.Ingestion.Artifacts.{write_document_artifacts, artifact_path}
use doktok_ng.Ingestion.Activation.{
  record_features_done, after_index, after_add, active_document, publish, after_extract, activate,
}

module _ {B : Type 0} (svc : Services B) (distinct : Distinct svc) where
  -- The state after the document's row is written, which was not there.
  abbrev pub with_document : Document Value → Ingest B → Ingest B
  with_document d s = record s { store = record s.store { docs = dict_set s.store.docs d.id d } }

  after_index-Ended :
      (id : String) (now : ℕ) (name : String) (result : ExtractionResult) (indexing : Indexing)
      (d : Document Value) (bytes : B) (s : Ingest B)
      → Registered s.jobs s.job.id s.job.tenant_id
      → ((n : ℕ)
          → s.drawn ≤ n
          → dict_get (delete svc.tenant_id id s.store).docs (svc.uuid n) ≡ none)
      → dict_get s.store.docs id ≡ some d
      → d.tenant_id ≡ svc.tenant_id
      → d.status ≡ Document.active
      → file_at s.files (record { folder = active_dir id; name = name }) ≡ some bytes
      → Returns (Ended svc bytes) (
          after_index svc id now (record { folder = active_dir id; name = name }) result indexing s)
  unfolding after_index record_features_done
  after_index-Ended id now name result (indexed chunks entities) d bytes s row fresh there owner
        status h =
      let original : FilePath = record { folder = active_dir id; name = name } in
      let job : Job = record s.job {
        document_id = some id;
        status = Jobs.active;
        finished_at = some now;
      } in
      let updated = update-registered job row.row s.jobs row.at row.same in
      rw updated (
        record {
          stored = get_set_self s.jobs s.job.id job;
          id = id;
          named = refl;
          document = d;
          there = there;
          owner = owner;
          status = rw status refl;
        },
        inr (original, file_at-rmtree (workdir s.job.id) s.files original refl ∙ h),
      )
  after_index-Ended id now name result (index_error message) d bytes s row fresh there owner status
        h =
      let original : FilePath = record { folder = active_dir id; name = name } in
      let s' : Ingest B = record s {
        job = record s.job { source_path = original };
        store = delete svc.tenant_id id s.store;
      } in
      let failed = fail-Parked svc "indexing_error" message bytes s' (row, fresh) h in
      Returns-continue (Parked svc bytes (failed_path svc s')) (Ended svc bytes)
        (fail svc "indexing_error" message s') _
        (λ job t (accounted, parked). (
          Accounted-files svc job t (rmtree (active_dir id) t.files) accounted,
          inr (
            failed_path svc s',
            file_at-rmtree (active_dir id) t.files (failed_path svc s') refl ∙ parked,
          ),
        ))
        failed

  after_add-Ended :
      (id : String) (now : ℕ) (name : String) (result : ExtractionResult) (d : Document Value)
      (bytes : B) (s : Ingest B)
      → Booked svc s
      → dict_get s.store.docs id ≡ some d
      → d.tenant_id ≡ svc.tenant_id
      → d.status ≡ Document.active
      → file_at s.files (record { folder = active_dir id; name = name }) ≡ some bytes
      → Returns (Ended svc bytes) (
          after_add svc id now
            (record { folder = active_dir id; name = name })
            result
            (returned tt)
            s)
  unfolding after_add
  after_add-Ended id now name result d bytes s (row, fresh) there owner status h =
      let job : Job = record s.job { status = Jobs.indexing } in
      let jobs = dict_set s.jobs s.job.id job in
      let updated = update-registered job row.row s.jobs row.at row.same in
      rw updated (
        after_index-Ended id now name result (svc.index id result) d bytes
          (record s { job = job; jobs = jobs }) (Registered-set s.jobs job)
          (λ n le. delete-none svc.tenant_id id (svc.uuid n) s.store (fresh n le)) there owner
          status h)

  raced-Ended :
      (id : String) (now : ℕ) (original : FilePath) (result : ExtractionResult) (bytes : B)
      (s : Ingest B)
      → Booked svc s
      → Returns (Ended svc bytes) (after_add svc id now original result duplicate_active s)
  unfolding after_add
  raced-Ended id now original result bytes s booked =
      handle_duplicate-Ended svc
        (or_empty_text (find_active_by_sha256 svc.tenant_id (or_empty_text s.job.sha256) s.store))
        bytes (record s { files = rmtree (active_dir id) s.files }) booked

  publish-Caught :
      (name : String) (result : ExtractionResult) (bytes : B) (s : Ingest B)
      → Booked svc s
      → s.job.source_path ≡ record { folder = workdir s.job.id; name = name }
      → file_at s.files (record { folder = workdir s.job.id; name = name }) ≡ some bytes
      → Caught svc bytes (publish svc result s)
  unfolding publish write_document_artifacts
  publish-Caught name result bytes s (row, fresh) src h =
      let id = svc.uuid s.drawn in
      let job : Job = record s.job { status = Jobs.activating } in
      let jobs = dict_set s.jobs s.job.id job in
      let updated = update-registered job row.row s.jobs row.at row.same in
      let original = artifact_path svc id job.detected_mime (original_filename job) in
      let d = active_document svc job id (svc.now s.ticks) result original in
      let there : file_at s.files s.job.source_path ≡ some bytes = rw src h in
      let files = put_file (remove_file s.files s.job.source_path) original bytes in
      let arrived = file_at-put (remove_file s.files s.job.source_path) original bytes in
      let apart : same_path original s.job.source_path ≡ false = rw src refl in
      let fresh' = Fresh-later svc s.drawn s.store.docs fresh in
      let s' : Ingest B = record s {
        job = job;
        files = files;
        jobs = jobs;
        drawn = s.drawn + 1;
        ticks = s.ticks + 1;
      } in
      let row' = Registered-set s.jobs job in
      rw updated (
        rw there (elim (Option-cases (svc.write_error id result)) [
          | inl e ↦ rw e (elim (add-cases d s.store (fresh s.drawn (omega arith))) [
            | inl added ↦
                let fresh'' = Fresh-set svc distinct s.drawn s.store.docs d fresh in
                let s'' = with_document d s' in
                rw added (
                  Returns-Caught svc bytes
                    (after_add svc id (svc.now s.ticks) original result (returned tt) s'')
                    (after_add-Ended id (svc.now s.ticks) original.name result d bytes s''
                      (row', fresh'') (get_set_self s.store.docs id d) refl refl arrived))
            | inr raced ↦ rw raced (
                Returns-Caught svc bytes
                  (after_add svc id (svc.now s.ticks) original result duplicate_active s')
                  (raced-Ended id (svc.now s.ticks) original result bytes s' (row', fresh')))
          ])
          | inr (message, e) ↦ rw e (
              (
                (row', fresh'),
                aside original (file_at-moved_away s.job.source_path original s.files bytes apart)
                    refl arrived,
              ))
        ]))

  after_extract-Caught :
      (name : String) (extraction : Extraction) (bytes : B) (s : Ingest B)
      → Booked svc s
      → s.job.source_path ≡ record { folder = workdir s.job.id; name = name }
      → file_at s.files (record { folder = workdir s.job.id; name = name }) ≡ some bytes
      → Caught svc bytes (after_extract svc extraction s)
  unfolding after_extract
  after_extract-Caught name (extracted result) bytes s booked src h =
      publish-Caught name result bytes s booked src h
  after_extract-Caught name (needs_ocr message) bytes s booked src h =
      Returns-Caught svc bytes (fail svc "needs_ocr" message s)
        (fail-Ended svc "needs_ocr" message bytes s booked (at_source (rw src h)))
  after_extract-Caught name (too_many_pages message) bytes s booked src h =
      Returns-Caught svc bytes (fail svc "too_many_pages" message s)
        (fail-Ended svc "too_many_pages" message bytes s booked (at_source (rw src h)))
  after_extract-Caught name (render_limit message) bytes s booked src h =
      Returns-Caught svc bytes (fail svc "render_limit_exceeded" message s)
        (fail-Ended svc "render_limit_exceeded" message bytes s booked (at_source (rw src h)))
  after_extract-Caught name (file_missing message) bytes s booked src h =
      (booked, at_source (rw src h))
  after_extract-Caught name (other_error message) bytes s booked src h =
      (booked, at_source (rw src h))

  pub activate-Caught :
      (name : String) (bytes : B) (s : Ingest B)
      → Booked svc s
      → s.job.source_path ≡ record { folder = workdir s.job.id; name = name }
      → file_at s.files (record { folder = workdir s.job.id; name = name }) ≡ some bytes
      → Caught svc bytes (activate svc s)
  unfolding activate
  activate-Caught name bytes s (row, fresh) src h =
      let job : Job = record s.job { status = Jobs.extracting } in
      let updated = update-registered job row.row s.jobs row.at row.same in
      let there : file_at s.files s.job.source_path ≡ some bytes = rw src h in
      rw updated (
        rw there (
          after_extract-Caught name (svc.extract (or_empty_text s.job.detected_mime) bytes) bytes
            (record s { job = job; jobs = dict_set s.jobs s.job.id job })
            (Registered-set s.jobs job, fresh) src h))
