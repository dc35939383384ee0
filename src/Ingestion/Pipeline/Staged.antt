-- ===== src/Ingestion/Pipeline/Staged.antt =====
-- The handoff of the staged intake: `_create_processing_document` of
-- core/doktok_core/ingestion/pipeline.py, and then the extract stage of
-- core/doktok_core/ingestion/extract_stage.py.
use doktok_ng.Prelude.{◌≡◌, refl, some, String, arith, str_eq_self}
use doktok_ng.Documents.Document
use doktok_ng.Documents.Document.{Document}
use doktok_ng.Documents.Store.{get}
use doktok_ng.Documents.Store.Adds.{add-inactive}
use doktok_ng.Documents.Store.Finishes.{get-set_document}
use doktok_ng.Jobs
use doktok_ng.Jobs.Updates.{update-registered}
use doktok_ng.Ingestion.Files.{file_at}
use doktok_ng.Ingestion.Services.{Value, Job, Services, Ingest}
use doktok_ng.Ingestion.Outcomes.{or_empty_text}
use doktok_ng.Ingestion.Outcomes.Accounts.{Returns, Booked}
use doktok_ng.Ingestion.Pipeline.{processing_document, create_processing_document}
use doktok_ng.Ingestion.ExtractStage.{process_document}
use doktok_ng.Ingestion.ExtractStage.Resumes.{StageEnd, waiting, process_document-StageEnd}

module _ {B : Type 0} (svc : Services B) where
  -- If the job at hand has its row, the ids that are drawn are new, and the source of the job is
  -- there, the staged intake returns a job that names a document; this document is stored, is of the
  -- content of the job, and is processing; and a run of the extract stage for it from there ends in
  -- one of the four ways: raised with the documents unchanged, active, failed, or deleted for another
  -- active document of its content.
  pub create_processing_document-StageEnd :
      (bytes : B) (s : Ingest B)
      → Booked svc s
      → file_at s.files s.job.source_path ≡ some bytes
      → Returns
          (λ job s'.
            (id : String) × (d : Document Value) × (job.document_id ≡ some id)
            × (get svc.tenant_id id s'.store ≡ some d)
            × (d.sha256 ≡ or_empty_text s.job.sha256)
            × (d.status ≡ Document.processing)
            × StageEnd svc id d bytes s' (process_document svc id s'))
          (create_processing_document svc s)
  unfolding create_processing_document
  create_processing_document-StageEnd bytes s (row, fresh) h =
      let id = svc.uuid s.drawn in
      let d = processing_document svc s.job id (svc.now s.ticks) in
      let job : Job = record s.job {
        document_id = some id;
        status = Jobs.active;
        finished_at = some (svc.now s.ticks);
      } in
      let added = add-inactive d s.store (fresh s.drawn (omega arith)) refl in
      let updated = update-registered job row.row s.jobs row.at row.same in
      let there = get-set_document svc.tenant_id id s.store d (str_eq_self svc.tenant_id) in
      rw added (
        rw updated (
          (
            id,
            d,
            refl,
            there,
            refl,
            refl,
            process_document-StageEnd svc id d s.job.source_path bytes _ there refl refl
                (waiting h),
          )))
