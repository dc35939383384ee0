-- ===== src/Features/Ledger/Unique.antt =====
-- The writes of the ledger, and the unique constraint of the table behind the production adapter:
-- core/doktok_core/features/inmemory.py.
use mathlib.Core.List.{map-append}
use doktok_ng.Prelude.{
  ℕ, ◌≡◌, refl, Bool, false, Option, none, some, List, [], ◌∷◌, ◌++◌, map, String, Bool-cases, All,
  find_first-none, map-update_first, map-update_all, inl, inr, update_first, update_all,
}
use doktok_ng.Features.Row.{FeatureMetrics, DocumentFeature, is_row, is_running}
use doktok_ng.Features.Keys.{key, same_key, UniqueKeys, Distinct-snoc}
use doktok_ng.Features.Ledger.{
  Ledger, active_of, find_row, new_row, done_row, mark_recorded, is_stale, mark_pending,
  record_found, record_done, add_missing, ensure_found, ensure_feature, ensure_features,
  ensure_extract, ensure_documents, ensure_for_active, seed_stage, seed_stages, seed_for_document,
  has_id, complete, mark_done, fail_with, mark_failed, start_over, reset_found, reset,
  tenant_running, put_back, requeue_running,
}

abbrev pub Unique : Ledger → Type 0
Unique s = UniqueKeys s.rows

All-key :
    (t d f : String) (rows : List DocumentFeature)
    → All (λ r. is_row t d f r ≡ false) rows
    → All (λ k. same_key k (t, d, f) ≡ false) (map key rows)
All-key t d f [] h = tt
All-key t d f (r ∷ rs) h = (h.0, All-key t d f rs h.1)

-- A row whose key the search did not find can be added.
UniqueKeys-snoc :
    (t d f : String) (rows : List DocumentFeature) (x : DocumentFeature)
    → key x ≡ (t, d, f)
    → find_row t d f rows ≡ none
    → UniqueKeys rows
    → UniqueKeys (rows ++ x ∷ [])
UniqueKeys-snoc t d f rows x e fresh h =
    rw (map-append, e)
      (Distinct-snoc (map key rows) (t, d, f)
        (All-key t d f rows (find_first-none (is_row t d f) rows fresh)) h)

UniqueKeys-update_first :
    (p : DocumentFeature → Bool) (f : DocumentFeature → DocumentFeature)
    (rows : List DocumentFeature)
    → ((r : DocumentFeature) → key (f r) ≡ key r)
    → UniqueKeys rows
    → UniqueKeys (update_first p f rows)
UniqueKeys-update_first p f rows keeps h = rw (map-update_first key p f rows keeps) h

UniqueKeys-update_all :
    (p : DocumentFeature → Bool) (f : DocumentFeature → DocumentFeature)
    (rows : List DocumentFeature)
    → ((r : DocumentFeature) → key (f r) ≡ key r)
    → UniqueKeys rows
    → UniqueKeys (update_all p f rows)
UniqueKeys-update_all p f rows keeps h = rw (map-update_all key p f rows keeps) h

module _ (uuid : ℕ → String) where
  add_missing-Unique :
      (make : String → DocumentFeature) (t d f : String) (o : Option DocumentFeature)
      (acc : Ledger × ℕ)
      → ((id : String) → key (make id) ≡ (t, d, f))
      → find_row t d f acc.0.rows ≡ o
      → Unique acc.0
      → Unique (add_missing uuid make o acc).0
  unfolding add_missing
  add_missing-Unique make t d f none (s, n) k e h =
      UniqueKeys-snoc t d f s.rows (make (uuid s.drawn)) (k (uuid s.drawn)) e h
  add_missing-Unique make t d f (some row) acc k e h = h

  record_found-Unique :
      (now : ℕ) (t d f : String) (version : ℕ) (o : Option DocumentFeature) (s : Ledger)
      → find_row t d f s.rows ≡ o
      → Unique s
      → Unique (record_found uuid now t d f version o s)
  unfolding record_found
  record_found-Unique now t d f version none s e h =
      UniqueKeys-snoc t d f s.rows (done_row (uuid s.drawn) t d f version now) refl e h
  record_found-Unique now t d f version (some row) s e h =
      UniqueKeys-update_first (is_row t d f) (mark_recorded version now) s.rows (λ x. refl) h

  pub record_done-Unique :
      (now : ℕ) (t d f : String) (version : ℕ) (s : Ledger)
      → Unique s
      → Unique (record_done uuid now t d f version s)
  unfolding record_done
  record_done-Unique now t d f version s h =
      record_found-Unique now t d f version (find_row t d f s.rows) s refl h

  ensure_found-Unique :
      (now : ℕ) (t d f : String) (version : ℕ) (o : Option DocumentFeature) (acc : Ledger × ℕ)
      → find_row t d f acc.0.rows ≡ o
      → Unique acc.0
      → Unique (ensure_found uuid now t d f version o acc).0
  unfolding ensure_found
  ensure_found-Unique now t d f version none acc e h =
      add_missing-Unique (λ id. new_row id t d f version now) t d f none acc (λ id. refl) e h
  ensure_found-Unique now t d f version (some row) (s, n) e h =
      elim (Bool-cases (is_stale version row)) [
        | inl stale ↦
            rw stale
              (UniqueKeys-update_first (is_row t d f) (mark_pending version) s.rows (λ x. refl) h)
        | inr fresh ↦ rw fresh h
      ]

  pub ensure_feature-Unique :
      (now : ℕ) (t d : String) (p : String × ℕ) (acc : Ledger × ℕ)
      → Unique acc.0
      → Unique (ensure_feature uuid now t d p acc).0
  unfolding ensure_feature
  ensure_feature-Unique now t d (name, version) acc h =
      ensure_found-Unique now t d name version (find_row t d name acc.0.rows) acc refl h

  ensure_features-Unique :
      (now : ℕ) (t d : String) (ps : List (String × ℕ)) (acc : Ledger × ℕ)
      → Unique acc.0
      → Unique (ensure_features uuid now t d ps acc).0
  unfolding ensure_features
  ensure_features-Unique now t d [] acc h = h
  ensure_features-Unique now t d (p ∷ ps) acc h =
      ensure_features-Unique now t d ps (ensure_feature uuid now t d p acc)
        (ensure_feature-Unique now t d p acc h)

  ensure_extract-Unique :
      (now : ℕ) (t d : String) (acc : Ledger × ℕ)
      → Unique acc.0
      → Unique (ensure_extract uuid now t d acc).0
  unfolding ensure_extract
  ensure_extract-Unique now t d acc h =
      add_missing-Unique (λ id. done_row id t d "extract" 1 now) t d "extract"
        (find_row t d "extract" acc.0.rows) acc (λ id. refl) refl h

  ensure_documents-Unique :
      (now : ℕ) (t : String) (ps : List (String × ℕ)) (ds : List String) (acc : Ledger × ℕ)
      → Unique acc.0
      → Unique (ensure_documents uuid now t ps ds acc).0
  unfolding ensure_documents
  ensure_documents-Unique now t ps [] acc h = h
  ensure_documents-Unique now t ps (d ∷ ds) acc h =
      let seeded = ensure_features uuid now t d ps acc in
      ensure_documents-Unique now t ps ds (ensure_extract uuid now t d seeded)
        (ensure_extract-Unique now t d seeded (ensure_features-Unique now t d ps acc h))

  pub ensure_for_active-Unique :
      (now : ℕ) (t : String) (ps : List (String × ℕ)) (s : Ledger)
      → Unique s
      → Unique (ensure_for_active uuid now t ps s).0
  unfolding ensure_for_active
  ensure_for_active-Unique now t ps s h =
      ensure_documents-Unique now t ps (active_of s.active t) (s, 0) h

  seed_stage-Unique :
      (now : ℕ) (t d : String) (p : String × ℕ) (acc : Ledger × ℕ)
      → Unique acc.0
      → Unique (seed_stage uuid now t d p acc).0
  unfolding seed_stage
  seed_stage-Unique now t d (name, version) acc h =
      add_missing-Unique (λ id. new_row id t d name version now) t d name
        (find_row t d name acc.0.rows) acc (λ id. refl) refl h

  seed_stages-Unique :
      (now : ℕ) (t d : String) (ps : List (String × ℕ)) (acc : Ledger × ℕ)
      → Unique acc.0
      → Unique (seed_stages uuid now t d ps acc).0
  unfolding seed_stages
  seed_stages-Unique now t d [] acc h = h
  seed_stages-Unique now t d (p ∷ ps) acc h =
      seed_stages-Unique now t d ps (seed_stage uuid now t d p acc)
        (seed_stage-Unique now t d p acc h)

  pub seed_for_document-Unique :
      (now : ℕ) (t d : String) (ps : List (String × ℕ)) (s : Ledger)
      → Unique s
      → Unique (seed_for_document uuid now t d ps s).0
  unfolding seed_for_document
  seed_for_document-Unique now t d ps s h = seed_stages-Unique now t d ps (s, 0) h

pub mark_done-Unique :
    (now : ℕ) (id : String) (version : ℕ) (metrics : Option FeatureMetrics) (s : Ledger)
    → Unique s
    → Unique (mark_done now id version metrics s)
unfolding mark_done
mark_done-Unique now id version metrics s h =
    UniqueKeys-update_all (has_id id) (complete now version metrics) s.rows (λ x. refl) h

pub mark_failed-Unique :
    (id error : String) (next : ℕ) (s : Ledger) → Unique s → Unique (mark_failed id error next s)
unfolding mark_failed
mark_failed-Unique id error next s h =
    UniqueKeys-update_all (has_id id) (fail_with error next) s.rows (λ x. refl) h

reset_found-Unique :
    (t d f : String) (o : Option DocumentFeature) (s : Ledger)
    → Unique s
    → Unique (reset_found t d f o s).0
unfolding reset_found
reset_found-Unique t d f none s h = h
reset_found-Unique t d f (some row) s h = elim (Bool-cases (is_running row.status)) [
  | inl busy ↦ rw busy h
  | inr idle ↦ rw idle (UniqueKeys-update_first (is_row t d f) start_over s.rows (λ x. refl) h)
]

pub reset-Unique : (t d f : String) (s : Ledger) → Unique s → Unique (reset t d f s).0
unfolding reset
reset-Unique t d f s h = reset_found-Unique t d f (find_row t d f s.rows) s h

pub requeue_running-Unique : (t : String) (s : Ledger) → Unique s → Unique (requeue_running t s).0
unfolding requeue_running
requeue_running-Unique t s h =
    UniqueKeys-update_all (tenant_running t) put_back s.rows (λ x. refl) h
