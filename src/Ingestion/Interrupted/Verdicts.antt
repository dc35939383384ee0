-- ===== src/Ingestion/Interrupted/Verdicts.antt =====
-- What `fail_interrupted_processing` makes of a document, by its staged source and the row of its
-- extract stage: core/doktok_core/ingestion/pipeline.py.
use Prim.Native.String.{◌++◌ as str_append}
use doktok_ng.Prelude.{
  ℕ, ◌≤◌, ◌<◌, ◌≡◌, refl, inl, inr, Bool, true, ◌&&◌, Bool-cases, Option, none, some, List, [], ◌∷◌,
  String, str_eq, ltb, leb, not, if◌then◌else◌, keep, find_first, arith, dict_get,
}
use doktok_ng.Features.Row.{
  DocumentFeature, FeatureStatus, pending, running, done, failed, is_failed,
}
use doktok_ng.Features.Queries.{list_for_document}
use doktok_ng.Features.Ledger.{Ledger}
use doktok_ng.Documents.Document.{Document, is_processing}
use doktok_ng.Documents.Store.{given_up, get}
use doktok_ng.Ingestion.Files.{FilePath, file_at}
use doktok_ng.Ingestion.Services.{Value, words, Services, Ingest}
use doktok_ng.Ingestion.ExtractStage.{path_text, source_of, is_there}
use doktok_ng.Ingestion.Interrupted.{
  error_or, row_reason, is_gone, source_text, reason, fail_interrupted_processing,
}
use doktok_ng.Ingestion.Interrupted.Reaps.{Filed, settled, fail_interrupted_processing-settled}

abbrev pub staged_source : Document Value → Option FilePath
staged_source d = source_of (dict_get d.metadata "staged_source")

-- The row of the ledger for the extract stage of a document.
abbrev pub extract_row : String → String → Ledger → Option DocumentFeature
extract_row t id ledger =
    find_first
      (λ r. (str_eq r.tenant_id t && str_eq r.document_id id) && str_eq r.feature "extract")
      ledger.rows

-- The staged source is not known to be gone.
pub data Present {B : Type 0} (files : List (FilePath × B)) : Option FilePath → Type 0 where
  unnamed : Present files none
  present : (p : FilePath) (bytes : B) → file_at files p ≡ some bytes → Present files (some p)

module _ {B : Type 0} (svc : Services B) (files : List (FilePath × B)) (ledger : Ledger)
    (d : Document Value) where
  pub data Verdict : Document Value → Type 0 where
    lost :
        (p : FilePath)
        → staged_source d ≡ some p
        → file_at files p ≡ none
        → Verdict (
            given_up words "source_missing"
              (str_append "staged source file is gone: " (path_text svc p))
              d)
    unseeded :
        Present files (staged_source d)
        → extract_row svc.tenant_id d.id ledger ≡ none
        → Verdict (
            given_up words "intake_interrupted"
              "stage ledger was never seeded (worker died during the intake handoff)" d)
    exhausted :
        (r : DocumentFeature)
        → Present files (staged_source d)
        → extract_row svc.tenant_id d.id ledger ≡ some r
        → r.status ≡ failed
        → r.max_attempts ≤ r.attempts
        → Verdict (
            given_up words "extract_interrupted"
              (error_or r.last_error "extract failed terminally")
              d)
    in_flight :
        (r : DocumentFeature)
        → Present files (staged_source d)
        → extract_row svc.tenant_id d.id ledger ≡ some r
        → (r.status ≡ failed → r.attempts < r.max_attempts)
        → Verdict d

find_first-keep {ℓ} :
    {A : Type ℓ} (p q : A → Bool) (xs : List A)
    → find_first q (keep p xs) ≡ find_first (λ x. p x && q x) xs
find_first-keep p q [] = refl
find_first-keep p q (x ∷ xs) = ground (arith, find_first-keep p q xs)

is_failed-failed : (status : FeatureStatus) → is_failed status ≡ true → status ≡ failed
is_failed-failed failed h = refl
is_failed-failed pending h = cc
is_failed-failed running h = cc
is_failed-failed done h = cc

module _ {B : Type 0} (svc : Services B) (files : List (FilePath × B)) (ledger : Ledger)
    (d : Document Value) where
  row-Verdict :
      (o : Option DocumentFeature)
      → Present files (staged_source d)
      → extract_row svc.tenant_id d.id ledger ≡ o
      → Verdict svc files ledger d (settled (row_reason o) d)
  row-Verdict none there e = unseeded there e
  row-Verdict (some r) there e = elim (Bool-cases (is_failed r.status)) [
    | inl f ↦ elim (Bool-cases (leb r.max_attempts r.attempts)) [
      | inl spent ↦
          rw f
            (rw spent (exhausted r there e (is_failed-failed r.status f) (ground (arith, spent))))
      | inr left ↦ rw f (rw left (in_flight r there e (λ h. ground (arith, left))))
    ]
    | inr f ↦ rw f (in_flight r there e (λ h. let g : is_failed r.status ≡ true = rw h refl in cc))
  ]

  reason-Verdict : Verdict svc files ledger d (settled (reason svc files ledger d) d)
  unfolding reason list_for_document
  reason-Verdict =
      rw
        (find_first-keep (λ r. str_eq r.tenant_id svc.tenant_id && str_eq r.document_id d.id)
          (λ r. str_eq r.feature "extract") ledger.rows)
        (by_source (staged_source d) refl)
    where
      by_file :
          (p : FilePath) (there : Option B)
          → staged_source d ≡ some p
          → file_at files p ≡ there
          → Verdict svc files ledger d (
              settled
                (if not (is_there there)
                  then some (
                    "source_missing",
                    str_append "staged source file is gone: " (path_text svc p),
                  )
                  else row_reason (extract_row svc.tenant_id d.id ledger))
                d)
      by_file p none e h = lost p e h
      by_file p (some bytes) e h =
          row-Verdict (extract_row svc.tenant_id d.id ledger) (rw e (present p bytes h)) refl

      by_source :
          (o : Option FilePath)
          → staged_source d ≡ o
          → Verdict svc files ledger d (
              settled
                (if is_gone o files
                  then some (
                    "source_missing",
                    str_append "staged source file is gone: " (source_text svc o),
                  )
                  else row_reason (extract_row svc.tenant_id d.id ledger))
                d)
      by_source none e = row-Verdict (extract_row svc.tenant_id d.id ledger) (rw e unnamed) refl
      by_source (some p) e = by_file p (file_at files p) e refl

module _ {B : Type 0} (svc : Services B) where
  -- If the documents are at their ids, and one of the tenant has been processing since before the
  -- given time, then it fails as `source_missing` where its staged source is gone; else as
  -- `intake_interrupted` where the ledger has no row of its extract stage; else as
  -- `extract_interrupted`, with the row's error, where the first such row has failed and has no
  -- attempts left; and else, with work in flight or attempts left, it stays as it is.
  pub fail_interrupted_processing-Verdict :
      (older_than : ℕ) (id : String) (d : Document Value) (s : Ingest B)
      → svc.has_feature_repo ≡ true
      → Filed s.store
      → get svc.tenant_id id s.store ≡ some d
      → is_processing d.status ≡ true
      → ltb d.created_at older_than ≡ true
      → (e : Document Value) × (dict_get
            (fail_interrupted_processing svc older_than s).0.store.docs
            id
          ≡ some e)
        × Verdict svc s.files s.ledger d e
  fail_interrupted_processing-Verdict older_than id d s wired filed h going old = (
    settled (reason svc s.files s.ledger d) d,
    fail_interrupted_processing-settled svc older_than id d s wired filed h going old,
    reason-Verdict svc s.files s.ledger d,
  )
