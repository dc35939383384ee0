-- ===== src/Jobs.antt =====
-- InMemoryIngestionJobRepository of core/doktok_core/ingestion/inmemory.py, and IngestionJob of
-- contracts/doktok_contracts/schemas.py. A path and a value of the
-- metadata are of any type, parameters.
pub mod Tenants
pub mod Updates
mod Examples
use doktok_ng.Prelude.{
  ℕ, ◌+◌, Bool, true, false, not, ◌&&◌, Option, none, some, List, [], ◌∷◌, ◌++◌, String, str_eq,
  ltb, if◌then◌else◌, keep, take, drop, dict_get, dict_set, dict_delete, dict_values,
}

pub data JobStatus : Type 0 where
  queued detecting hashing normalizing extracting chunking embedding indexing activating : JobStatus
  active failed quarantined duplicate : JobStatus

pub record IngestionJob (P V : Type 0) : Type 0 where
  pub id : String
  pub tenant_id : String
  pub document_id : Option String
  pub source_path : P
  pub status : JobStatus
  pub detected_mime : Option String
  pub sha256 : Option String
  pub error_code : Option String
  pub error_message : Option String
  pub started_at : Option ℕ
  pub finished_at : Option ℕ
  pub metadata : List (String × V)

-- What a method gives that may raise.
pub data JobError : Type 0 where
  value_error key_error permission_error : JobError

-- job.status in terminal
abbrev pub is_terminal : JobStatus → Bool
is_terminal active = true
is_terminal failed = true
is_terminal quarantined = true
is_terminal duplicate = true
is_terminal _ = false

abbrev pub is_text : Option String → String → Bool
is_text none s = false
is_text (some t) s = str_eq t s

abbrev pub started_before : Option ℕ → ℕ → Bool
started_before none before = false
started_before (some at) before = ltb at before

abbrev pub reversed {ℓ} : {A : Type ℓ} → List A → List A
reversed [] = []
reversed (x ∷ xs) = reversed xs ++ x ∷ []

abbrev pub JobRepository : Type 0 → Type 0 → Type 0
JobRepository P V = List (String × IngestionJob P V)

module _ {P V : Type 0} where
  abbrev pub of_tenant : String → IngestionJob P V → Bool
  of_tenant t job = str_eq job.tenant_id t

  abbrev pub of_document : String → String → IngestionJob P V → Bool
  of_document t d job = of_tenant t job && is_text job.document_id d

  add_found :
      IngestionJob P V
      → Option (IngestionJob P V)
      → JobRepository P V
      → JobRepository P V × Option JobError
  add_found job (some old) s = (s, some value_error)
  add_found job none s = (dict_set s job.id job, none)

  pub add : IngestionJob P V → JobRepository P V → JobRepository P V × Option JobError
  unfolding add_found
  add job s = add_found job (dict_get s job.id) s

  update_found :
      IngestionJob P V
      → Option (IngestionJob P V)
      → JobRepository P V
      → JobRepository P V × Option JobError
  update_found job none s = (s, some key_error)
  update_found job (some old) s =
      if not (str_eq old.tenant_id job.tenant_id)
      then (s, some permission_error)
      else (dict_set s job.id job, none)

  pub update : IngestionJob P V → JobRepository P V → JobRepository P V × Option JobError
  unfolding update_found
  update job s = update_found job (dict_get s job.id) s

  get_found : String → Option (IngestionJob P V) → Option (IngestionJob P V)
  get_found t none = none
  get_found t (some job) = if of_tenant t job then some job else none

  pub get : String → String → JobRepository P V → Option (IngestionJob P V)
  unfolding get_found
  get t id s = get_found t (dict_get s id)

  pub list_jobs : String → ℕ → ℕ → JobRepository P V → List (IngestionJob P V)
  list_jobs t limit offset s =
      take limit (drop offset (keep (of_tenant t) (reversed (dict_values s))))

  pub find_by_sha256 : String → String → JobRepository P V → List (IngestionJob P V)
  find_by_sha256 t sha s =
      keep (λ job. of_tenant t job && is_text job.sha256 sha) (reversed (dict_values s))

  -- the keys of the victims, and `del` for each
  abbrev pub victims : String → String → JobRepository P V → List String
  victims t d [] = []
  victims t d ((id, job) ∷ rest) =
      let others = victims t d rest in if of_document t d job then id ∷ others else others

  abbrev pub delete_all : List String → JobRepository P V → JobRepository P V
  delete_all [] s = s
  delete_all (id ∷ ids) s = delete_all ids (dict_delete s id)

  pub delete_for_document : String → String → JobRepository P V → JobRepository P V
  delete_for_document t d s = delete_all (victims t d s) s

  unfoldable pub list_in_flight : String → ℕ → JobRepository P V → List (IngestionJob P V)
  list_in_flight t before s =
      keep
        (λ job.
          of_tenant t job && not (is_terminal job.status) && started_before job.started_at before)
        (dict_values s)

  delete_found : String → String → Option (IngestionJob P V) → JobRepository P V → JobRepository P V
  delete_found t id none s = s
  delete_found t id (some job) s = if of_tenant t job then dict_delete s id else s

  pub delete : String → String → JobRepository P V → JobRepository P V
  unfolding delete_found
  delete t id s = delete_found t id (dict_get s id) s
