-- ===== src/Features/Claim/Restarts.antt =====
-- A worker that crashes on a row, and is started again: `recover_running` and `claim_next` of
-- core/doktok_core/features.
use doktok_ng.Prelude.{ℕ, zero, suc, ◌+◌, ◌≡◌, refl, subst, [], ◌∷◌, String, arith, str_eq_self}
use doktok_ng.Features.Row.{DocumentFeature, running}
use doktok_ng.Features.Ledger.{Ledger, put_back, requeue_running}
use doktok_ng.Features.Claim.{
  Lanes, exhausted, fail_exhausted, ready, due, lane_open, group_full, claimable, start, claim_rows,
  claim_next,
}

-- No dependencies and no limits.
abbrev pub no_lanes : Lanes
no_lanes = record { dependencies = []; lane_limits = []; lane_groups = []; lane_group_limits = [] }

-- The worker is started, claims, and dies without a word about the row.
abbrev pub crash : ℕ → ℕ → String → Ledger → Ledger
crash now reclaim_before t s = (claim_next no_lanes now reclaim_before t (requeue_running t s).0).0

pub crashes : ℕ → ℕ → ℕ → String → Ledger → Ledger
crashes zero now reclaim_before t s = s
crashes (suc n) now reclaim_before t s =
    crashes n now reclaim_before t (crash now reclaim_before t s)

crash-rows :
    (now reclaim_before : ℕ) (t : String) (s : Ledger) (r : DocumentFeature)
    → s.rows ≡ r ∷ []
    → r.tenant_id ≡ t
    → r.status ≡ running
    → (crash now reclaim_before t s).rows ≡ start now (put_back r) ∷ []
unfolding claim_next claim_rows fail_exhausted exhausted claimable due ready lane_open group_full
    requeue_running
crash-rows now reclaim_before t s r rows owned runs =
    rw rows (ground (arith, str_eq_self r.tenant_id))

-- The only row of the ledger is a running row of the tenant with these attempts and bound.
pub record IsRunningAlone (t : String) (attempts bound : ℕ) (s : Ledger) : Type 0 where
  pub row : DocumentFeature
  pub alone : s.rows ≡ row ∷ []
  pub owned : row.tenant_id ≡ t
  pub runs : row.status ≡ running
  pub used : row.attempts ≡ attempts
  pub allowed : row.max_attempts ≡ bound

-- After n restarts of a worker that each crash on the one row of the ledger, the row is running
-- with n more attempts, for every n: its `max_attempts` bounds them nowhere.
pub crashes-unbounded :
    (n now reclaim_before : ℕ) (t : String) (s : Ledger) (attempts bound : ℕ)
    → IsRunningAlone t attempts bound s
    → IsRunningAlone t (attempts + n) bound (crashes n now reclaim_before t s)
unfolding crashes
crashes-unbounded zero now reclaim_before t s attempts bound h =
    subst (λ k. IsRunningAlone t k bound s) {x = attempts} {y = attempts + 0} (omega arith) h
crashes-unbounded (suc n) now reclaim_before t s attempts bound h =
    let r = start now (put_back h.row) in
    let s' = crash now reclaim_before t s in
    let h' : IsRunningAlone t (attempts + 1) bound s' = record {
      row = r;
      alone = crash-rows now reclaim_before t s h.row h.alone h.owned h.runs;
      owned = h.owned;
      runs = refl;
      used = omega (arith, h.used);
      allowed = h.allowed;
    } in
    subst (λ k. IsRunningAlone t k bound (crashes n now reclaim_before t s')) {x = attempts + 1 + n}
      {y = attempts + suc n} (omega arith)
      (crashes-unbounded n now reclaim_before t s' (attempts + 1) bound h')
