-- ===== src/Features/Ledger/Fewer.antt =====
-- The writes of the ledger other than a claim, and the number of running rows:
-- core/doktok_core/features/inmemory.py.
use doktok_ng.Prelude.{
  ℕ, ◌≤◌, ◌≡◌, refl, inl, inr, Bool, true, false, Option, none, some, List, [], ◌∷◌, ◌++◌, String,
  arith, Bool-cases, count, update_first, update_all, count-update_le,
}
use doktok_ng.Features.Row.{DocumentFeature, FeatureMetrics, is_running, is_row}
use doktok_ng.Features.Ledger.{
  Ledger, active_of, find_row, new_row, done_row, mark_recorded, is_stale, mark_pending,
  record_found, record_done, add_missing, ensure_found, ensure_feature, ensure_features,
  ensure_extract, ensure_documents, ensure_for_active, seed_stage, seed_stages, seed_for_document,
  has_id, complete, mark_done, fail_with, mark_failed, start_over, reset_found, reset,
  tenant_running, put_back, requeue_running,
}

-- A test that only running rows pass.
pub record NeedsRunning (p : DocumentFeature → Bool) : Type 0 where
  pub runs : (r : DocumentFeature) → p r ≡ true → is_running r.status ≡ true

module _ (p : DocumentFeature → Bool) (needs : NeedsRunning p) where
  idle : (r : DocumentFeature) → is_running r.status ≡ false → p r ≡ false
  idle r h = ground (arith, needs.runs r)

  count-snoc :
      (rows : List DocumentFeature) (x : DocumentFeature)
      → is_running x.status ≡ false
      → count p (rows ++ x ∷ []) ≤ count p rows
  count-snoc [] x h = ground (arith, idle x h)
  count-snoc (r ∷ rs) x h = ground (arith, count-snoc rs x h)

  count-update_first :
      (q : DocumentFeature → Bool) (f : DocumentFeature → DocumentFeature)
      (rows : List DocumentFeature)
      → ((r : DocumentFeature) → is_running (f r).status ≡ false)
      → count p (update_first q f rows) ≤ count p rows
  count-update_first q f [] h = omega arith
  count-update_first q f (r ∷ rs) h = ground (arith, idle (f r) (h r), count-update_first q f rs h)

  count-update_idle :
      (q : DocumentFeature → Bool) (f : DocumentFeature → DocumentFeature)
      (rows : List DocumentFeature)
      → ((r : DocumentFeature) → is_running (f r).status ≡ false)
      → count p (update_all q f rows) ≤ count p rows
  count-update_idle q f rows h =
      count-update_le p q f rows (λ r t. ground (arith, idle (f r) (h r)))

  module _ (uuid : ℕ → String) where
    add_missing-count :
        (make : String → DocumentFeature) (o : Option DocumentFeature) (acc : Ledger × ℕ)
        → ((id : String) → is_running (make id).status ≡ false)
        → count p (add_missing uuid make o acc).0.rows ≤ count p acc.0.rows
    unfolding add_missing
    add_missing-count make none (s, n) h =
        count-snoc s.rows (make (uuid s.drawn)) (h (uuid s.drawn))
    add_missing-count make (some r) acc h = omega arith

    record_found-count :
        (now : ℕ) (t d f : String) (version : ℕ) (o : Option DocumentFeature) (s : Ledger)
        → count p (record_found uuid now t d f version o s).rows ≤ count p s.rows
    unfolding record_found
    record_found-count now t d f version none s =
        count-snoc s.rows (done_row (uuid s.drawn) t d f version now) refl
    record_found-count now t d f version (some r) s =
        count-update_first (is_row t d f) (mark_recorded version now) s.rows (λ x. refl)

    pub record_done-count :
        (now : ℕ) (t d f : String) (version : ℕ) (s : Ledger)
        → count p (record_done uuid now t d f version s).rows ≤ count p s.rows
    unfolding record_done
    record_done-count now t d f version s =
        record_found-count now t d f version (find_row t d f s.rows) s

    ensure_found-count :
        (now : ℕ) (t d f : String) (version : ℕ) (o : Option DocumentFeature) (acc : Ledger × ℕ)
        → count p (ensure_found uuid now t d f version o acc).0.rows ≤ count p acc.0.rows
    unfolding ensure_found
    ensure_found-count now t d f version none acc =
        add_missing-count (λ id. new_row id t d f version now) none acc (λ id. refl)
    ensure_found-count now t d f version (some r) (s, n) = elim (Bool-cases (is_stale version r)) [
      | inl stale ↦
          rw stale (count-update_first (is_row t d f) (mark_pending version) s.rows (λ x. refl))
      | inr fresh ↦ rw fresh (omega arith)
    ]

    ensure_features-count :
        (now : ℕ) (t d : String) (ps : List (String × ℕ)) (acc : Ledger × ℕ)
        → count p (ensure_features uuid now t d ps acc).0.rows ≤ count p acc.0.rows
    unfolding ensure_features ensure_feature
    ensure_features-count now t d [] acc = omega arith
    ensure_features-count now t d ((f, v) ∷ ps) acc = omega (
      arith,
      ensure_found-count now t d f v (find_row t d f acc.0.rows) acc,
      ensure_features-count now t d ps (ensure_feature uuid now t d (f, v) acc),
    )

    ensure_documents-count :
        (now : ℕ) (t : String) (ps : List (String × ℕ)) (ds : List String) (acc : Ledger × ℕ)
        → count p (ensure_documents uuid now t ps ds acc).0.rows ≤ count p acc.0.rows
    unfolding ensure_documents ensure_extract
    ensure_documents-count now t ps [] acc = omega arith
    ensure_documents-count now t ps (d ∷ ds) acc =
        let seeded = ensure_features uuid now t d ps acc in
        omega (
          arith,
          ensure_features-count now t d ps acc,
          add_missing-count (λ id. done_row id t d "extract" 1 now)
              (find_row t d "extract" seeded.0.rows) seeded (λ id. refl),
          ensure_documents-count now t ps ds (ensure_extract uuid now t d seeded),
        )

    pub ensure_for_active-count :
        (now : ℕ) (t : String) (ps : List (String × ℕ)) (s : Ledger)
        → count p (ensure_for_active uuid now t ps s).0.rows ≤ count p s.rows
    unfolding ensure_for_active
    ensure_for_active-count now t ps s =
        ensure_documents-count now t ps (active_of s.active t) (s, 0)

    seed_stages-count :
        (now : ℕ) (t d : String) (ps : List (String × ℕ)) (acc : Ledger × ℕ)
        → count p (seed_stages uuid now t d ps acc).0.rows ≤ count p acc.0.rows
    unfolding seed_stages seed_stage
    seed_stages-count now t d [] acc = omega arith
    seed_stages-count now t d ((f, v) ∷ ps) acc = omega (
      arith,
      add_missing-count (λ id. new_row id t d f v now) (find_row t d f acc.0.rows) acc (λ id. refl),
      seed_stages-count now t d ps (seed_stage uuid now t d (f, v) acc),
    )

    pub seed_for_document-count :
        (now : ℕ) (t d : String) (ps : List (String × ℕ)) (s : Ledger)
        → count p (seed_for_document uuid now t d ps s).0.rows ≤ count p s.rows
    unfolding seed_for_document
    seed_for_document-count now t d ps s = seed_stages-count now t d ps (s, 0)

  pub mark_done-count :
      (now : ℕ) (id : String) (version : ℕ) (metrics : Option FeatureMetrics) (s : Ledger)
      → count p (mark_done now id version metrics s).rows ≤ count p s.rows
  unfolding mark_done
  mark_done-count now id version metrics s =
      count-update_idle (has_id id) (complete now version metrics) s.rows (λ x. refl)

  pub mark_failed-count :
      (id error : String) (next : ℕ) (s : Ledger)
      → count p (mark_failed id error next s).rows ≤ count p s.rows
  unfolding mark_failed
  mark_failed-count id error next s =
      count-update_idle (has_id id) (fail_with error next) s.rows (λ x. refl)

  reset_found-count :
      (t d f : String) (o : Option DocumentFeature) (s : Ledger)
      → count p (reset_found t d f o s).0.rows ≤ count p s.rows
  unfolding reset_found
  reset_found-count t d f none s = omega arith
  reset_found-count t d f (some r) s = elim (Bool-cases (is_running r.status)) [
    | inl busy ↦ rw busy (omega arith)
    | inr free ↦ rw free (count-update_first (is_row t d f) start_over s.rows (λ x. refl))
  ]

  pub reset-count : (t d f : String) (s : Ledger) → count p (reset t d f s).0.rows ≤ count p s.rows
  unfolding reset
  reset-count t d f s = reset_found-count t d f (find_row t d f s.rows) s

  pub requeue_running-count :
      (t : String) (s : Ledger) → count p (requeue_running t s).0.rows ≤ count p s.rows
  unfolding requeue_running
  requeue_running-count t s = count-update_idle (tenant_running t) put_back s.rows (λ x. refl)
