-- ===== src/Features/Reconciler/Outcomes.antt =====
-- What the run of a feature leaves in the ledger.
use doktok_ng.Prelude.{
  ℕ, ◌+◌, ◌-◌, ◌*◌, ◌^◌, ◌<◌, ◌≡◌, refl, inl, inr, Bool, true, false, Option, none, some, List, [],
  ◌∷◌, String, arith, Bool-cases, All, update_all,
}
use doktok_ng.Features.Row.{DocumentFeature, failed, done}
use doktok_ng.Features.Ledger.{has_id, complete, fail_with, mark_done, mark_failed}
use doktok_ng.Features.Claim.{due}
use doktok_ng.Features.Claim.Due.{done-not_due, failed-not_due}
use doktok_ng.Features.Reconciler.{
  Environment, Reconciler, completed, raised, LlmUsage, Processor, World, find_processor,
  metrics_of, backoff, finish, process_with, process,
}

All-update_all :
    (P : DocumentFeature → Type 0) (q : DocumentFeature → Bool)
    (f : DocumentFeature → DocumentFeature) (rows : List DocumentFeature)
    → ((r : DocumentFeature) → q (f r) ≡ q r)
    → ((r : DocumentFeature) → P (f r))
    → All (λ r. q r ≡ true → P r) (update_all q f rows)
All-update_all P q f [] same h = tt
All-update_all P q f (r ∷ rs) same h = elim (Bool-cases (q r)) [
  | inl e ↦ rw e ((λ _. h r), All-update_all P q f rs same h)
  | inr e ↦ rw e ((λ t. cc), All-update_all P q f rs same h)
]

module _ (env : Environment) (rec : Reconciler) (t : String) (x : DocumentFeature) (p : Processor)
    (w : World) where
  finish-raised :
      (error : String)
      → (finish env rec t x p (raised error) w).ledger.rows
        ≡ update_all
            (has_id x.id)
            (fail_with error (env.clock w.ticks + rec.backoff_base * 2 ^ (x.attempts - 1)))
            w.ledger.rows
  unfolding finish mark_failed backoff
  finish-raised error = ground arith

  finish-completed :
      (usage : Option LlmUsage)
      → (finish env rec t x p (completed usage) w).ledger.rows
        ≡ update_all
            (has_id x.id)
            (complete
              (env.stamp w.ticks)
              p.version
              (some (metrics_of p (env.elapsed_ms w.runs) usage)))
            w.ledger.rows
  unfolding finish mark_done
  finish-completed usage = ground arith

module _ (env : Environment) (rec : Reconciler) (t : String) (x : DocumentFeature) (w : World)
    (p : Processor) (known : find_processor x.feature rec.processors ≡ some p) where
  -- A run that raises leaves the row failed, with the error; until the backoff has passed, the
  -- base times two to the number of attempts before this one, the row is not due.
  pub process-backs_off :
      (error : String) (now reclaim_before : ℕ)
      → env.outcome w.runs ≡ raised error
      → now < env.clock w.ticks + rec.backoff_base * 2 ^ (x.attempts - 1)
      → All
          (λ r.
            has_id x.id r ≡ true
            → (r.status ≡ failed)
              × (r.last_error ≡ some error)
              × (due now reclaim_before r ≡ false))
          (process env rec t x w).ledger.rows
  unfolding process
  process-backs_off error now reclaim_before outcome early =
      let next = env.clock w.ticks + rec.backoff_base * 2 ^ (x.attempts - 1) in
      rw (known, process_with, outcome, finish-raised env rec t x p w error)
        (All-update_all
          (λ r.
            (r.status ≡ failed) × (r.last_error ≡ some error) × (due now reclaim_before r ≡ false))
          (has_id x.id) (fail_with error next) w.ledger.rows (λ r. refl)
          (λ r. (
            refl,
            refl,
            failed-not_due now reclaim_before (fail_with error next r) next refl refl early,
          )))

  -- A run that returns leaves the row done at the processor's version, with no error and the
  -- metrics of the run, and not due at any time.
  pub process-completes :
      (usage : Option LlmUsage) (now reclaim_before : ℕ)
      → env.outcome w.runs ≡ completed usage
      → All
          (λ r.
            has_id x.id r ≡ true
            → (r.status ≡ done)
              × (r.feature_version ≡ p.version)
              × (r.last_error ≡ none)
              × (r.metrics ≡ metrics_of p (env.elapsed_ms w.runs) usage)
              × (due now reclaim_before r ≡ false))
          (process env rec t x w).ledger.rows
  unfolding process
  process-completes usage now reclaim_before outcome =
      let metrics = metrics_of p (env.elapsed_ms w.runs) usage in
      let mark = complete (env.stamp w.ticks) p.version (some metrics) in
      rw (known, process_with, outcome, finish-completed env rec t x p w usage)
        (All-update_all
          (λ r.
            (r.status ≡ done)
            × (r.feature_version ≡ p.version)
            × (r.last_error ≡ none)
            × (r.metrics ≡ metrics)
            × (due now reclaim_before r ≡ false))
          (has_id x.id) mark w.ledger.rows (λ r. refl)
          (λ r. (refl, refl, refl, refl, done-not_due now reclaim_before (mark r) refl)))
