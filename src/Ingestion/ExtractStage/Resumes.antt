-- ===== src/Ingestion/ExtractStage/Resumes.antt =====
-- How a run of the extract stage ends, also after one that died on the way:
-- core/doktok_core/ingestion/extract_stage.py.
use doktok_ng.Prelude.{
  ◌≡◌, refl, ap, subst, inl, inr, Option-cases, Bool, true, none, some, List, String, dict_get,
}
use doktok_ng.Documents.Document
use doktok_ng.Documents.Document.{Document, is_processing}
use doktok_ng.Documents.Store.{Store, get, delete, is_found, find_active_by_sha256, activated}
use doktok_ng.Documents.Store.Finishes.{
  get-parts, activate-cases, fail-processing, get-set_document,
}
use doktok_ng.Ingestion.Files.{FilePath, active_dir, file_at, put_file, remove_file, move_if_there}
use doktok_ng.Ingestion.Files.Laws.{file_at-put, file_at-move}
use doktok_ng.Ingestion.Services.{
  Value, words, Services, Extraction, extracted, needs_ocr, too_many_pages, render_limit,
  file_missing, other_error, Ingest, Tried, value, raised,
}
use doktok_ng.Ingestion.Outcomes.{or_empty_text}
use doktok_ng.Ingestion.Outcomes.Accounts.{Kept}
use doktok_ng.Ingestion.Artifacts.{artifact_path, write_document_artifacts}
use doktok_ng.Ingestion.ExtractStage.{
  source_of, first, originals, resolve_source, extraction_metadata, after_activate,
  after_extraction, extract_from, of_source, of_document, process_document,
}

module _ {B : Type 0} where
  -- The bytes are at the staged source; or that is gone, and they are at the first original in the
  -- folder of the document, where a run that died has moved them.
  pub data Staged (bytes : B) (id : String) (source : FilePath) (files : List (FilePath × B))
      : Type 0 where
    waiting : file_at files source ≡ some bytes → Staged bytes id source files
    left_over :
        (original : FilePath)
        → file_at files source ≡ none
        → first (originals id files) ≡ some original
        → file_at files original ≡ some bytes
        → Staged bytes id source files

  -- After `_resolve_source` the bytes are at the source.
  resolve_source-there :
      (bytes : B) (id : String) (source : FilePath) (s : Ingest B)
      → Staged bytes id source s.files
      → (files : List (FilePath × B)) × (◌≡◌ {A = Bool × Ingest B}
          (resolve_source id source s)
          (true, record s { files = files }))
        × (file_at files source ≡ some bytes)
  unfolding resolve_source
  resolve_source-there bytes id source s (waiting h) = (s.files, rw h refl, h)
  resolve_source-there bytes id source s (left_over original gone found h) =
      let files = move_if_there original source s.files in
      (files, rw gone (rw found refl), file_at-move original source s.files bytes h)

  module _ (svc : Services B) where
    -- The ends of a run of the stage for a document.
    pub data StageEnd (id : String) (d : Document Value) (bytes : B) (s : Ingest B)
        : Tried Unit × Ingest B → Type 0 where
      -- to be tried again: the documents are as before, and a file holds the bytes
      retry :
          (message : String) (s' : Ingest B)
          → s'.store ≡ s.store
          → Kept bytes s'
          → StageEnd id d bytes s (raised message, s')
      -- the document is active, and its original holds the bytes
      published :
          (s' : Ingest B) (d' : Document Value)
          → get svc.tenant_id id s'.store ≡ some d'
          → d'.status ≡ Document.active
          → file_at s'.files (artifact_path svc id d.detected_mime d.original_filename) ≡ some bytes
          → StageEnd id d bytes s (value tt, s')
      -- the document has failed, and a file holds the bytes
      refused :
          (s' : Ingest B) (d' : Document Value)
          → get svc.tenant_id id s'.store ≡ some d'
          → d'.status ≡ Document.failed
          → Kept bytes s'
          → StageEnd id d bytes s (value tt, s')
      -- the document is deleted, for another one of its content is active
      superseded :
          (s' : Ingest B)
          → is_found (find_active_by_sha256 svc.tenant_id d.sha256 s.store) ≡ true
          → s'.store ≡ delete svc.tenant_id id s.store
          → StageEnd id d bytes s (value tt, s')

    after_extraction-StageEnd :
        (id : String) (d : Document Value) (source : FilePath) (extraction : Extraction) (bytes : B)
        (s s0 : Ingest B)
        → s.store ≡ s0.store
        → get svc.tenant_id id s.store ≡ some d
        → is_processing d.status ≡ true
        → file_at s.files source ≡ some bytes
        → StageEnd id d bytes s0 (after_extraction svc id d source extraction s)
    unfolding after_extraction after_activate write_document_artifacts
    after_extraction-StageEnd id d source (extracted result) bytes s s0 e h going there =
        let original = artifact_path svc id d.detected_mime d.original_filename in
        let files = put_file (remove_file s.files source) original bytes in
        let arrived = file_at-put (remove_file s.files source) original bytes in
        let path = svc.folder_text (active_dir id) in
        let metadata = extraction_metadata svc result original in
        let own = (get-parts svc.tenant_id id s.store d h).1 in
        rw there (elim (Option-cases (svc.write_error id result)) [
          | inl fine ↦
              rw fine
                (elim (activate-cases (svc.now s.ticks) svc.tenant_id id path metadata s.store d h
                  going) [
                    | inl done ↦ rw done (
                        published _ (activated (svc.now s.ticks) path metadata d)
                          (get-set_document svc.tenant_id id s.store _ own) refl arrived)
                    | inr (raced, twin) ↦ rw raced (
                        superseded _
                          (subst
                            (λ (x : Store Value).
                              is_found (find_active_by_sha256 svc.tenant_id d.sha256 x) ≡ true)
                            e twin)
                          (ap (λ (x : Store Value). delete svc.tenant_id id x) e))
                  ])
          | inr (message, failed) ↦ rw failed (retry message _ e (original, arrived))
        ])
    after_extraction-StageEnd id d source (render_limit message) bytes s s0 e h going there =
        let (here, own) = get-parts svc.tenant_id id s.store d h in
        rw
          (fail-processing words svc.tenant_id id "render_limit_exceeded" message s.store d here own
            going)
          (refused _ _ (get-set_document svc.tenant_id id s.store _ own) refl (source, there))
    after_extraction-StageEnd id d source (file_missing message) bytes s s0 e h going there =
        let (here, own) = get-parts svc.tenant_id id s.store d h in
        rw
          (fail-processing words svc.tenant_id id "source_missing" message s.store d here own going)
          (refused _ _ (get-set_document svc.tenant_id id s.store _ own) refl (source, there))
    after_extraction-StageEnd id d source (needs_ocr message) bytes s s0 e h going there =
        retry message s e (source, there)
    after_extraction-StageEnd id d source (too_many_pages message) bytes s s0 e h going there =
        retry message s e (source, there)
    after_extraction-StageEnd id d source (other_error message) bytes s s0 e h going there =
        retry message s e (source, there)

    -- If a document is processing, and its bytes are at the staged source or, after a run that died,
    -- at the first original in its folder, then a run of the extract stage for it ends in one of four
    -- ways: it raises, with the documents unchanged and a file that holds the bytes; the document is
    -- active, with the bytes at its original; it has failed, with a file that holds the bytes; or it
    -- is deleted, and then another document of its content was active.
    pub process_document-StageEnd :
        (id : String) (d : Document Value) (source : FilePath) (bytes : B) (s : Ingest B)
        → get svc.tenant_id id s.store ≡ some d
        → is_processing d.status ≡ true
        → source_of (dict_get d.metadata "staged_source") ≡ some source
        → Staged bytes id source s.files
        → StageEnd id d bytes s (process_document svc id s)
    unfolding process_document of_document of_source extract_from
    process_document-StageEnd id d source bytes s h going named staged =
        let (files, resolved, there) = resolve_source-there bytes id source s staged in
        let extraction = svc.extract (or_empty_text d.detected_mime) bytes in
        rw h (
          rw going (
            rw named (
              rw resolved (
                rw there (
                  after_extraction-StageEnd id d source extraction bytes
                    (record s { files = files }) s refl h going there)))))
