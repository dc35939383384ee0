-- ===== src/Features/Calls.antt =====
-- Any sequence of calls of the feature ledger: what the reconciler, the API and a restart may do
-- to it, in any order.
mod Examples
use doktok_ng.Prelude.{
  ℕ, ◌≤◌, ◌≡◌, refl, subst, inl, inr, true, Bool-cases, str_eq, str_eq→eq, All, Option, some, List,
  [], ◌∷◌, String, arith, dict_get,
}
use doktok_ng.Features.Row.{FeatureMetrics}
use doktok_ng.Features.Ledger.{
  Ledger, record_done, ensure_for_active, seed_for_document, mark_done, mark_failed, reset,
  requeue_running,
}
use doktok_ng.Features.Ledger.Unique.{
  Unique, record_done-Unique, ensure_for_active-Unique, seed_for_document-Unique, mark_done-Unique,
  mark_failed-Unique, reset-Unique, requeue_running-Unique,
}
use doktok_ng.Features.Ledger.Fewer.{
  NeedsRunning, record_done-count, ensure_for_active-count, seed_for_document-count,
  mark_done-count, mark_failed-count, reset-count, requeue_running-count,
}
use doktok_ng.Features.Claim.{Lanes, runs_feature, running_count, claim_next}
use doktok_ng.Features.Claim.Unique.{claim_next-Unique}
use doktok_ng.Features.Claim.Limits.{claim_next-keeps_lane_limit, running_count-other_tenant}

pub data Call : Type 0 where
  record_inline : ℕ → String → String → String → ℕ → Call
  ensure : ℕ → String → List (String × ℕ) → Call
  seed : ℕ → String → String → List (String × ℕ) → Call
  claim_row : Lanes → String → ℕ → ℕ → Call
  finish_row : ℕ → String → ℕ → Option FeatureMetrics → Call
  fail_row : String → String → ℕ → Call
  reset_row : String → String → String → Call
  requeue : String → Call

-- The lane of the feature has the limit, in a claim for the tenant.
pub HasLimit : String → String → ℕ → Call → Type 0
HasLimit t f limit (claim_row lanes t' now reclaim_before) =
    str_eq t t' ≡ true → dict_get lanes.lane_limits f ≡ some limit
HasLimit t f limit _ = Unit

module _ (uuid : ℕ → String) where
  pub call : Call → Ledger → Ledger
  call (record_inline now t' d f version) s = record_done uuid now t' d f version s
  call (ensure now t' features) s = (ensure_for_active uuid now t' features s).0
  call (seed now t' d stages) s = (seed_for_document uuid now t' d stages s).0
  call (claim_row lanes t' now reclaim_before) s = (claim_next lanes now reclaim_before t' s).0
  call (finish_row now id version metrics) s = mark_done now id version metrics s
  call (fail_row id error next) s = mark_failed id error next s
  call (reset_row t' d f) s = (reset t' d f s).0
  call (requeue t') s = (requeue_running t' s).0

  pub calls : List Call → Ledger → Ledger
  calls [] s = s
  calls (c ∷ cs) s = calls cs (call c s)

  call-Unique : (c : Call) (s : Ledger) → Unique s → Unique (call c s)
  unfolding call
  call-Unique (record_inline now t' d f version) s h =
      record_done-Unique uuid now t' d f version s h
  call-Unique (ensure now t' features) s h = ensure_for_active-Unique uuid now t' features s h
  call-Unique (seed now t' d stages) s h = seed_for_document-Unique uuid now t' d stages s h
  call-Unique (claim_row lanes t' now reclaim_before) s h =
      let result = claim_next lanes now reclaim_before t' s in
      claim_next-Unique lanes now reclaim_before t' s result.0 result.1 refl h
  call-Unique (finish_row now id version metrics) s h = mark_done-Unique now id version metrics s h
  call-Unique (fail_row id error next) s h = mark_failed-Unique id error next s h
  call-Unique (reset_row t' d f) s h = reset-Unique t' d f s h
  call-Unique (requeue t') s h = requeue_running-Unique t' s h

  -- From a ledger with one row for a tenant, a document and a feature, any calls, for any tenants
  -- and with any lanes, lead to such a ledger: no call adds a second row for a key.
  pub calls-Unique : (cs : List Call) (s : Ledger) → Unique s → Unique (calls cs s)
  unfolding calls
  calls-Unique [] s h = h
  calls-Unique (c ∷ cs) s h = calls-Unique cs (call c s) (call-Unique c s h)

  runs_feature-NeedsRunning : (t f : String) → NeedsRunning (runs_feature t f)
  runs_feature-NeedsRunning t f = record { runs = λ r h. ground arith }

  module _ (t f : String) (limit : ℕ) where
    call-keeps_lane_limit :
        (c : Call) (s : Ledger)
        → HasLimit t f limit c
        → running_count s.rows t f ≤ limit
        → running_count (call c s).rows t f ≤ limit
    unfolding call running_count HasLimit
    call-keeps_lane_limit (record_inline now t' d f' version) s has h = omega (
      arith,
      record_done-count (runs_feature t f) (runs_feature-NeedsRunning t f) uuid now t' d f' version
          s,
    )
    call-keeps_lane_limit (ensure now t' features) s has h = omega (
      arith,
      ensure_for_active-count (runs_feature t f) (runs_feature-NeedsRunning t f) uuid now t'
          features s,
    )
    call-keeps_lane_limit (seed now t' d stages) s has h = omega (
      arith,
      seed_for_document-count (runs_feature t f) (runs_feature-NeedsRunning t f) uuid now t' d
          stages s,
    )
    call-keeps_lane_limit (claim_row lanes t' now reclaim_before) s has h =
        elim (Bool-cases (str_eq t t')) [
          | inl same ↦
              let eq = str_eq→eq t t' same in
              let result = claim_next lanes now reclaim_before t s in
              subst
                (λ x. running_count (claim_next lanes now reclaim_before x s).0.rows t f ≤ limit) eq
                (claim_next-keeps_lane_limit lanes now reclaim_before t s result.0 f limit result.1
                  (has same) refl h)
          | inr apart ↦
              omega (arith, running_count-other_tenant lanes now reclaim_before t' s t f apart, h)
        ]
    call-keeps_lane_limit (finish_row now id version metrics) s has h = omega (
      arith,
      mark_done-count (runs_feature t f) (runs_feature-NeedsRunning t f) now id version metrics s,
    )
    call-keeps_lane_limit (fail_row id error next) s has h = omega (
      arith,
      mark_failed-count (runs_feature t f) (runs_feature-NeedsRunning t f) id error next s,
    )
    call-keeps_lane_limit (reset_row t' d f') s has h =
        omega (arith, reset-count (runs_feature t f) (runs_feature-NeedsRunning t f) t' d f' s)
    call-keeps_lane_limit (requeue t') s has h =
        omega (arith, requeue_running-count (runs_feature t f) (runs_feature-NeedsRunning t f) t' s)

    -- If every claim for a tenant is made with lanes in which a feature has a given limit, then no
    -- sequence of calls, which may claim for other tenants with any lanes, brings the running rows of
    -- the tenant's feature over the limit.
    pub calls-keep_lane_limit :
        (cs : List Call) (s : Ledger)
        → All (HasLimit t f limit) cs
        → running_count s.rows t f ≤ limit
        → running_count (calls cs s).rows t f ≤ limit
    unfolding calls
    calls-keep_lane_limit [] s has h = h
    calls-keep_lane_limit (c ∷ cs) s (first, rest) h =
        calls-keep_lane_limit cs (call c s) rest (call-keeps_lane_limit c s first h)
