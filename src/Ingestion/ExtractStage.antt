-- ===== src/Ingestion/ExtractStage.antt =====
-- ExtractStage of core/doktok_core/ingestion/extract_stage.py: the first stage of a document that was
-- taken in as `processing`. It runs on the state of a run of the pipeline, whose job it leaves alone.
pub mod Resumes
use Prim.Native.String.{◌++◌ as str_append}
use doktok_ng.Prelude.{
  ◌+◌, ◌++◌, Bool, true, false, ◌&&◌, Option, none, some, List, [], ◌∷◌, String, keep, sorted,
  text_before, if◌then◌else◌, dict_get,
}
use text.Mathlib.Text.{starts_with}
use doktok_ng.Documents.Document.{Document, is_processing}
use doktok_ng.Documents.Store.{
  Result, returned, value_error, duplicate_active, get, delete, fail, activate,
}
use doktok_ng.Ingestion.Files.{FilePath, active_dir, same_folder, file_at, move_if_there, rmtree}
use doktok_ng.Ingestion.Services.{
  Value, words, place, number, Services, ExtractionResult, Extraction, extracted, needs_ocr,
  too_many_pages, render_limit, file_missing, other_error, Ingest, Step, value, ◌>>=◌, ◌>>◌, pure,
  raise, gets, modify, read_clock,
}
use doktok_ng.Ingestion.Outcomes.{or_empty_text}
use doktok_ng.Ingestion.Artifacts.{read_file, write_document_artifacts}
use doktok_ng.Ingestion.Activation.{normalized_entry, system_document}

-- document.metadata.get("staged_source"); the pipeline puts a path there
abbrev pub source_of : Option Value → Option FilePath
source_of (some (place p)) = some p
source_of (some v) = none
source_of none = none

abbrev pub name_before : FilePath → FilePath → Bool
name_before p q = text_before p.name q.name

abbrev pub first : List FilePath → Option FilePath
first [] = none
first (p ∷ ps) = some p

module _ {B : Type 0} where
  abbrev pub paths_of : List (FilePath × B) → List FilePath
  paths_of [] = []
  paths_of ((p, b) ∷ files) = p ∷ paths_of files

  -- sorted(active_dir.glob("original.*"))
  abbrev pub originals : String → List (FilePath × B) → List FilePath
  originals id files = sorted name_before (
      keep (λ p. same_folder p.folder (active_dir id) && starts_with p.name "original.")
        (paths_of files))

  abbrev pub is_there : Option B → Bool
  is_there none = false
  is_there (some b) = true

  abbrev pub moved_back : FilePath → Option FilePath → Ingest B → Bool × Ingest B
  moved_back source none s = (false, s)
  moved_back source (some q) s = (true, record s { files = move_if_there q source s.files })

  -- `_resolve_source`; false is the FileNotFoundError
  pub resolve_source : String → FilePath → Ingest B → Bool × Ingest B
  resolve_source id source s =
      if is_there (file_at s.files source)
      then (true, s)
      else moved_back source (first (originals id s.files)) s

  module _ (svc : Services B) where
    -- the text of a path
    abbrev pub path_text : FilePath → String
    path_text p = str_append (svc.folder_text p.folder) (str_append "/" p.name)

    abbrev fail_document : String → String → String → Step B Unit
    fail_document id code message =
        modify (λ s. record s { store = (fail words svc.tenant_id id code message s.store).0 })

    -- The metadata that an activation adds.
    abbrev pub extraction_metadata : ExtractionResult → FilePath → List (String × Value)
    extraction_metadata result original =
        ("extraction_method", words result.extraction_method)
        ∷ ("page_count", number result.page_count)
        ∷ ("ocr_confidence", result.ocr_confidence)
        ∷ ("language", words (svc.detect_language result.content_md))
        ∷ ("original", words original.name)
        ∷ ("system_document", words (system_document svc result original))
        ∷ normalized_entry svc result.normalized_from_mime

    pub after_activate : String → Result Bool → Step B Unit
    after_activate id (returned true) = pure tt
    after_activate id (returned false) =
        modify (λ s. record s { files = rmtree (active_dir id) s.files })
    after_activate id duplicate_active = modify (λ s. record s {
      files = rmtree (active_dir id) s.files;
      store = delete svc.tenant_id id s.store;
    })
    after_activate id value_error = raise "document already exists"

    -- document_repo.activate(...), with what it gives or raises
    abbrev try_activate : String → FilePath → ExtractionResult → Step B (Result Bool)
    try_activate id original result s =
        let path = svc.folder_text (active_dir id) in
        let metadata = extraction_metadata result original in
        let (store', r) = activate (svc.now s.ticks) svc.tenant_id id path metadata s.store in
        (value r, record s { store = store'; ticks = s.ticks + 1 })

    pub after_extraction : String → Document Value → FilePath → Extraction → Step B Unit
    unfolding after_activate
    after_extraction id d source (extracted result) = do
      original ← write_document_artifacts svc id source d.detected_mime d.original_filename result
      r ← try_activate id original result
      after_activate id r
    after_extraction id d source (render_limit message) =
        fail_document id "render_limit_exceeded" message
    after_extraction id d source (file_missing message) = fail_document id "source_missing" message
    after_extraction id d source (needs_ocr message) = raise message
    after_extraction id d source (too_many_pages message) = raise message
    after_extraction id d source (other_error message) = raise message

    pub extract_from : String → Document Value → FilePath → Bool → Step B Unit
    unfolding after_extraction
    extract_from id d source false =
        fail_document id "source_missing"
          (str_append "no such file: '" (str_append (path_text source) "'"))
    extract_from id d source true = do
      bytes ← read_file source
      after_extraction id d source (svc.extract (or_empty_text d.detected_mime) bytes)

    pub of_source : String → Document Value → Option FilePath → Step B Unit
    unfolding extract_from resolve_source
    of_source id d none = raise "processing document has no staged source path"
    of_source id d (some source) =
        λ s. let (there, s') = resolve_source id source s in extract_from id d source there s'

    pub of_document : String → Option (Document Value) → Step B Unit
    unfolding of_source
    of_document id none = pure tt
    of_document id (some d) =
        if is_processing d.status
        then of_source id d (source_of (dict_get d.metadata "staged_source"))
        else pure tt

    -- `process`
    pub process_document : String → Step B Unit
    unfolding of_document
    process_document id = do found ← gets (λ s. get svc.tenant_id id s.store); of_document id found
