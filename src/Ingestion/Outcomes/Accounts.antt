-- ===== src/Ingestion/Outcomes/Accounts.antt =====
-- What a run of the pipeline leaves, in terms of its state: the job's row, the document's row and
-- the bytes of the file. Code: core/doktok_core/ingestion/pipeline.py.
use doktok_ng.Prelude.{
  ℕ, ◌≤◌, ◌<◌, ◌≡◌, ◌⊎◌, ◌+◌, Bool, true, false, none, some, List, String, str_eq, arith, dict_get,
  dict_set, get-set, str_eq_self,
}
use doktok_ng.Documents.Document
use doktok_ng.Documents.Document.{Document, DocumentStatus}
use doktok_ng.Jobs
use doktok_ng.Jobs.{JobStatus, JobRepository}
use doktok_ng.Ingestion.Files.{FilePath, workdir, file_at, same_folder}
use doktok_ng.Ingestion.Services.{
  Value, Job, Services, Ingest, Tried, value, raised, Step, continue,
}

-- The status of the document that belongs to a job that has ended.
abbrev pub agrees : JobStatus → DocumentStatus → Bool
agrees Jobs.active Document.active = true
agrees Jobs.active Document.processing = true
agrees Jobs.failed Document.failed = true
agrees Jobs.quarantined Document.quarantined = true
agrees Jobs.duplicate Document.duplicate = true
agrees _ _ = false

-- The job with this id has a row, of the tenant.
pub record Registered (jobs : JobRepository FilePath Value) (id tenant : String) : Type 0 where
  pub row : Job
  pub at : dict_get jobs id ≡ some row
  pub same : str_eq row.tenant_id tenant ≡ true

-- The bytes of the file lie at the path of the job; or they lie elsewhere, out of the working
-- folder, and there is nothing at the path of the job.
pub data Lies {B : Type 0} (bytes : B) (files : List (FilePath × B)) (source : FilePath)
    (id : String) : Type 0 where
  at_source : file_at files source ≡ some bytes → Lies bytes files source id
  aside :
      (p : FilePath)
      → file_at files source ≡ none
      → same_folder p.folder (workdir id) ≡ false
      → file_at files p ≡ some bytes
      → Lies bytes files source id

pub get_set_self {ℓ} :
    {V : Type ℓ} (d : List (String × V)) (k : String) (v : V) → dict_get (dict_set d k v) k ≡ some v
get_set_self d k v = ground (arith, get-set d k k v, str_eq_self k)

pub Registered-set :
    (jobs : JobRepository FilePath Value) (job : Job)
    → Registered (dict_set jobs job.id job) job.id job.tenant_id
Registered-set jobs job = record {
  row = job;
  at = get_set_self jobs job.id job;
  same = str_eq_self job.tenant_id;
}

module _ {B : Type 0} where
  -- The run has returned a job, and this holds of it and of the state.
  abbrev pub Returns : (Job → Ingest B → Type 0) → Tried Job × Ingest B → Type 0
  Returns Q (value job, s) = Q job s
  Returns Q (raised message, s) = ⊥

  pub Returns-map :
      (Q R : Job → Ingest B → Type 0) (r : Tried Job × Ingest B)
      → ((job : Job) (s : Ingest B) → Q job s → R job s)
      → Returns Q r
      → Returns R r
  Returns-map Q R (value job, s) f h = f job s h
  Returns-map Q R (raised message, s) f h = h

  pub Returns-continue :
      (Q R : Job → Ingest B → Type 0) (r : Tried Job × Ingest B) (f : Job → Step B Job)
      → ((job : Job) (s : Ingest B) → Q job s → Returns R (f job s))
      → Returns Q r
      → Returns R (continue r.0 f r.1)
  Returns-continue Q R (value job, s) f g h = g job s h
  Returns-continue Q R (raised message, s) f g h = absurd h

  abbrev pub Where : B → Ingest B → Type 0
  Where bytes s = Lies bytes s.files s.job.source_path s.job.id

  -- Some file holds the bytes.
  abbrev pub Kept : B → Ingest B → Type 0
  Kept bytes s = (p : FilePath) × (file_at s.files p ≡ some bytes)

  pub Where-Kept : (bytes : B) (s : Ingest B) → Where bytes s → Kept bytes s
  Where-Kept bytes s (at_source h) = (s.job.source_path, h)
  Where-Kept bytes s (aside p empty out h) = (p, h)

  module _ (svc : Services B) where
    -- The ids that are still to be drawn are new to the documents.
    abbrev pub Fresh : ℕ → List (String × Document Value) → Type 0
    Fresh drawn docs = (n : ℕ) → drawn ≤ n → dict_get docs (svc.uuid n) ≡ none

    -- A drawn id is not drawn again.
    abbrev pub Distinct : Type 0
    Distinct = (m n : ℕ) → m < n → str_eq (svc.uuid m) (svc.uuid n) ≡ false

    abbrev pub Booked : Ingest B → Type 0
    Booked s = Registered s.jobs s.job.id s.job.tenant_id × Fresh s.drawn s.store.docs

    -- The row of the job is the job, and its document is there, of the tenant, and has the status
    -- that belongs to the status of the job.
    pub record Accounted (job : Job) (s : Ingest B) : Type 0 where
      pub stored : dict_get s.jobs job.id ≡ some job
      pub id : String
      pub named : job.document_id ≡ some id
      pub document : Document Value
      pub there : dict_get s.store.docs id ≡ some document
      pub owner : document.tenant_id ≡ svc.tenant_id
      pub status : agrees job.status document.status ≡ true

    -- The files do not matter to it.
    pub Accounted-files :
        (job : Job) (s : Ingest B) (files : List (FilePath × B))
        → Accounted job s
        → Accounted job (record s { files = files })
    Accounted-files job s files a = record {
      stored = a.stored;
      id = a.id;
      named = a.named;
      document = a.document;
      there = a.there;
      owner = a.owner;
      status = a.status;
    }

    -- What is claimed of a run that returns: a duplicate may have lost its bytes.
    abbrev pub Ended : B → Job → Ingest B → Type 0
    Ended bytes job s = Accounted job s × ((job.status ≡ Jobs.duplicate) ⊎ Kept bytes s)

    -- What is claimed of a run that may raise.
    abbrev pub Caught : B → Tried Job × Ingest B → Type 0
    Caught bytes (value job, s) = Ended bytes job s
    Caught bytes (raised message, s) = Booked s × Where bytes s

    pub Returns-Caught :
        (bytes : B) (r : Tried Job × Ingest B) → Returns (Ended bytes) r → Caught bytes r
    Returns-Caught bytes (value job, s) h = h
    Returns-Caught bytes (raised message, s) h = absurd h

    pub Fresh-later :
        (drawn : ℕ) (docs : List (String × Document Value))
        → Fresh drawn docs
        → Fresh (drawn + 1) docs
    Fresh-later drawn docs fresh n le = fresh n (omega arith)

  module _ (svc : Services B) (distinct : Distinct svc) where
    pub Fresh-set :
        (drawn : ℕ) (docs : List (String × Document Value)) (d : Document Value)
        → Fresh svc drawn docs
        → Fresh svc (drawn + 1) (dict_set docs (svc.uuid drawn) d)
    Fresh-set drawn docs d fresh n le =
        let before = fresh n (omega arith) in
        let apart = distinct drawn n (omega arith) in
        rw (get-set docs (svc.uuid drawn) (svc.uuid n) d) (rw apart before)
