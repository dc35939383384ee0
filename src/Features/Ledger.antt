-- ===== src/Features/Ledger.antt =====
-- The in-memory feature ledger: core/doktok_core/features/inmemory.py. `uuid` is the supply of
-- `uuid.uuid4().hex`, and `drawn` counts the draws; `now` is what `datetime.now()` returns.
pub mod Unique
mod Examples
pub mod Fewer
pub mod Requeue
pub mod Ensure
pub mod Settled
use doktok_ng.Prelude.{
  ℕ, ◌+◌, Bool, true, false, ◌&&◌, Option, none, some, List, [], ◌∷◌, ◌++◌, String, str_eq, ltb,
  if◌then◌else◌, find_first, update_first, update_all, count,
}
use doktok_ng.Features.Row.{
  pending, done, failed, FeatureMetrics, DocumentFeature, no_metrics, is_running, is_done, is_row,
}

pub record Ledger : Type 0 where
  pub rows : List DocumentFeature
  pub active : List (String × List String)
  pub drawn : ℕ

-- self.active.get(tenant_id, [])
abbrev pub active_of : List (String × List String) → String → List String
active_of [] t = []
active_of ((k, ds) ∷ rest) t = let others = active_of rest t in if str_eq k t then ds else others

abbrev pub find_row : String → String → String → List DocumentFeature → Option DocumentFeature
find_row t d f rows = find_first (is_row t d f) rows

-- A new row: the fields that the constructor call leaves out have their defaults.
abbrev pub new_row : String → String → String → String → ℕ → ℕ → DocumentFeature
new_row id t d f version now = record {
  id = id;
  tenant_id = t;
  document_id = d;
  feature = f;
  feature_version = version;
  status = pending;
  attempts = 0;
  max_attempts = 3;
  last_error = none;
  last_attempt_at = none;
  completed_at = none;
  next_attempt_at = none;
  created_at = now;
  updated_at = now;
  metrics = no_metrics;
}

abbrev pub done_row : String → String → String → String → ℕ → ℕ → DocumentFeature
done_row id t d f version now = record (new_row id t d f version now) {
  status = done;
  completed_at = some now;
}

abbrev pub mark_recorded : ℕ → ℕ → DocumentFeature → DocumentFeature
mark_recorded version now r = record r {
  status = done;
  feature_version = version;
  attempts = 0;
  last_error = none;
  completed_at = some now;
}

-- row.status is DONE and row.feature_version < version
abbrev pub is_stale : ℕ → DocumentFeature → Bool
is_stale version r = is_done r.status && ltb r.feature_version version

abbrev pub mark_pending : ℕ → DocumentFeature → DocumentFeature
mark_pending version r = record r { status = pending; feature_version = version; attempts = 0 }

module _ (uuid : ℕ → String) where
  -- self.rows.append(DocumentFeature(id=uuid.uuid4().hex, ...))
  abbrev pub append_row : (String → DocumentFeature) → Ledger → Ledger
  append_row make s = record s { rows = s.rows ++ make (uuid s.drawn) ∷ []; drawn = s.drawn + 1 }

  -- the branches on the row that `_find` returns
  record_found : ℕ → String → String → String → ℕ → Option DocumentFeature → Ledger → Ledger
  record_found now t d f version none s = append_row (λ id. done_row id t d f version now) s
  record_found now t d f version (some row) s = record s {
    rows = update_first (is_row t d f) (mark_recorded version now) s.rows;
  }

  unfoldable pub record_done : ℕ → String → String → String → ℕ → Ledger → Ledger
  unfolding record_found
  record_done now t d f version s = record_found now t d f version (find_row t d f s.rows) s

  -- The state of the loops of `ensure_for_active` and `seed_for_document`: the ledger and
  -- `affected`. A missing row is added, and one that is there stays.
  pub add_missing : (String → DocumentFeature) → Option DocumentFeature → Ledger × ℕ → Ledger × ℕ
  add_missing make none (s, affected) = (append_row make s, affected + 1)
  add_missing make (some row) acc = acc

  ensure_found : ℕ → String → String → String → ℕ → Option DocumentFeature → Ledger × ℕ → Ledger × ℕ
  unfolding add_missing
  ensure_found now t d name version none acc =
      add_missing (λ id. new_row id t d name version now) none acc
  ensure_found now t d name version (some row) (s, affected) =
      if is_stale version row
      then (
        record s { rows = update_first (is_row t d name) (mark_pending version) s.rows },
        affected + 1,
      )
      else (s, affected)

  pub ensure_feature : ℕ → String → String → String × ℕ → Ledger × ℕ → Ledger × ℕ
  unfolding ensure_found
  ensure_feature now t d (name, version) acc =
      ensure_found now t d name version (find_row t d name acc.0.rows) acc

  pub ensure_features : ℕ → String → String → List (String × ℕ) → Ledger × ℕ → Ledger × ℕ
  ensure_features now t d [] acc = acc
  ensure_features now t d (p ∷ ps) acc = ensure_features now t d ps (ensure_feature now t d p acc)

  -- the self-healing 'extract' marker
  pub ensure_extract : ℕ → String → String → Ledger × ℕ → Ledger × ℕ
  unfolding add_missing
  ensure_extract now t d acc =
      add_missing (λ id. done_row id t d "extract" 1 now) (find_row t d "extract" acc.0.rows) acc

  pub ensure_documents : ℕ → String → List (String × ℕ) → List String → Ledger × ℕ → Ledger × ℕ
  ensure_documents now t features [] acc = acc
  ensure_documents now t features (d ∷ ds) acc =
      ensure_documents now t features ds
        (ensure_extract now t d (ensure_features now t d features acc))

  pub ensure_for_active : ℕ → String → List (String × ℕ) → Ledger → Ledger × ℕ
  ensure_for_active now t features s = ensure_documents now t features (active_of s.active t) (s, 0)

  pub seed_stage : ℕ → String → String → String × ℕ → Ledger × ℕ → Ledger × ℕ
  unfolding add_missing
  seed_stage now t d (name, version) acc =
      add_missing (λ id. new_row id t d name version now) (find_row t d name acc.0.rows) acc

  pub seed_stages : ℕ → String → String → List (String × ℕ) → Ledger × ℕ → Ledger × ℕ
  seed_stages now t d [] acc = acc
  seed_stages now t d (p ∷ ps) acc = seed_stages now t d ps (seed_stage now t d p acc)

  pub seed_for_document : ℕ → String → String → List (String × ℕ) → Ledger → Ledger × ℕ
  seed_for_document now t d stages s = seed_stages now t d stages (s, 0)

abbrev pub or_metrics : Option FeatureMetrics → FeatureMetrics → FeatureMetrics
or_metrics none old = old
or_metrics (some m) old = m

abbrev pub has_id : String → DocumentFeature → Bool
has_id id r = str_eq r.id id

abbrev pub complete : ℕ → ℕ → Option FeatureMetrics → DocumentFeature → DocumentFeature
complete now version metrics r = record r {
  status = done;
  feature_version = version;
  last_error = none;
  completed_at = some now;
  metrics = or_metrics metrics r.metrics;
}

unfoldable pub mark_done : ℕ → String → ℕ → Option FeatureMetrics → Ledger → Ledger
mark_done now id version metrics s = record s {
  rows = update_all (has_id id) (complete now version metrics) s.rows;
}

abbrev pub fail_with : String → ℕ → DocumentFeature → DocumentFeature
fail_with error next r = record r {
  status = failed;
  last_error = some error;
  next_attempt_at = some next;
}

unfoldable pub mark_failed : String → String → ℕ → Ledger → Ledger
mark_failed id error next s = record s {
  rows = update_all (has_id id) (fail_with error next) s.rows;
}

abbrev pub start_over : DocumentFeature → DocumentFeature
start_over r = record r {
  status = pending;
  attempts = 0;
  last_error = none;
  next_attempt_at = none;
}

-- The Boolean is the method's result; a running row is never reset.
reset_found : String → String → String → Option DocumentFeature → Ledger → Ledger × Bool
reset_found t d f none s = (s, false)
reset_found t d f (some row) s =
    if is_running row.status
    then (s, false)
    else (record s { rows = update_first (is_row t d f) start_over s.rows }, true)

pub reset : String → String → String → Ledger → Ledger × Bool
unfolding reset_found
reset t d f s = reset_found t d f (find_row t d f s.rows) s

abbrev pub tenant_running : String → DocumentFeature → Bool
tenant_running t r = str_eq r.tenant_id t && is_running r.status

abbrev pub put_back : DocumentFeature → DocumentFeature
put_back r = record r { status = pending; last_attempt_at = none }

unfoldable pub requeue_running : String → Ledger → Ledger × ℕ
requeue_running t s = (
  record s { rows = update_all (tenant_running t) put_back s.rows },
  count (tenant_running t) s.rows,
)
