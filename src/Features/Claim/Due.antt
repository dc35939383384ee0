-- ===== src/Features/Claim/Due.antt =====
-- When a row is due.
use doktok_ng.Prelude.{ℕ, ◌≤◌, ◌<◌, ◌≡◌, true, false, some, arith}
use doktok_ng.Features.Row.{DocumentFeature, failed, done, is_pending}
use doktok_ng.Features.Claim.{due, start}

module _ (now reclaim_before : ℕ) (r : DocumentFeature) where
  pub done-not_due : r.status ≡ done → due now reclaim_before r ≡ false
  unfolding due
  done-not_due h = ground arith

  pub failed-not_due :
      (at : ℕ)
      → r.status ≡ failed
      → r.next_attempt_at ≡ some at
      → now < at
      → due now reclaim_before r ≡ false
  unfolding due
  failed-not_due at h n l = ground arith

  -- Away from a pending row, a row that is due has an attempt left, and starting it stays within
  -- its bound.
  pub due-attempts :
      due now reclaim_before r ≡ true
      → is_pending r.status ≡ false
      → (start now r).attempts ≤ r.max_attempts
  unfolding due
  due-attempts h p = ground arith
