-- ===== src/Features/Claim/Result.antt =====
-- The result of `claim_next`, and the ledger that it leaves.
use doktok_ng.Prelude.{
  ℕ, List, arith, ◌≡◌, refl, sym, ap, subst, true, false, Option, none, some, String, All, set,
}
use doktok_ng.Features.Row.{DocumentFeature}
use doktok_ng.Features.Ledger.{Ledger}
use doktok_ng.Features.Claim.{
  Lanes, in_tenant, fail_exhausted, ready, due, lane_open, claimable, start, choose, take_row,
  claim_rows, claim_next,
}
use doktok_ng.Features.Claim.Choice.{IsChoice, choose-IsChoice, choose-none}

pub claimable_parts :
    (lanes : Lanes) (now reclaim_before : ℕ) (rows : List DocumentFeature) (t : String)
    (r : DocumentFeature)
    → claimable lanes now reclaim_before rows t r ≡ true
    → (due now reclaim_before r ≡ true)
      × (ready lanes.dependencies rows t r ≡ true)
      × (lane_open lanes rows t r ≡ true)
unfolding claimable
claimable_parts lanes now reclaim_before rows t r h = ground arith

-- The claimed row `x` is the choice among the rows that are left when the exhausted ones have
-- failed, started at `now` and written back in its place.
pub record IsClaim (lanes : Lanes) (now reclaim_before : ℕ) (t : String) (s s' : Ledger)
    (x : DocumentFeature) : Type 0 where
  pub place : ℕ
  pub row : DocumentFeature
  pub choice :
      IsChoice lanes now reclaim_before (fail_exhausted t reclaim_before s.rows) t place row
  pub started : x ≡ start now row
  pub written :
      s' ≡ record s { rows = set (fail_exhausted t reclaim_before s.rows) place (start now row) }

module _ (lanes : Lanes) (now reclaim_before : ℕ) (t : String) (s s' : Ledger) where
  -- A row that `claim_next` returns is the first claimable row of the tenant, it is returned as it
  -- stands in the ledger afterwards, and nothing else of the ledger has changed but that exhausted
  -- rows have failed.
  pub claim_next-IsClaim :
      (x : DocumentFeature)
      → claim_next lanes now reclaim_before t s ≡ (s', some x)
      → IsClaim lanes now reclaim_before t s s' x
  unfolding claim_next claim_rows
  claim_next-IsClaim x e =
      let rows = fail_exhausted t reclaim_before s.rows in
      go (choose lanes now reclaim_before rows t) refl e
    where
      go :
          (o : Option (ℕ × DocumentFeature))
          → choose lanes now reclaim_before (fail_exhausted t reclaim_before s.rows) t ≡ o
          → (let (rows', claimed) = take_row now (fail_exhausted t reclaim_before s.rows) o in
              ◌≡◌ {A = Ledger × Option DocumentFeature}
                (record s { rows = rows' }, claimed)
                (s', some x))
          → IsClaim lanes now reclaim_before t s s' x
      go none c h = absurd (cc)
      go (some (i, r)) c h = record {
        place = i;
        row = r;
        choice =
            choose-IsChoice lanes now reclaim_before (fail_exhausted t reclaim_before s.rows) t i r
              c;
        started = cc;
        written = sym (ap (λ p. p.0) h);
      }

  -- No row is returned only where no row of the tenant is claimable, and then only the exhausted
  -- rows have changed.
  pub claim_next-none :
      claim_next lanes now reclaim_before t s ≡ (s', none)
      → (s' ≡ record s { rows = fail_exhausted t reclaim_before s.rows })
        × All
            (λ r. in_tenant t r ≡ true → claimable lanes now reclaim_before s'.rows t r ≡ false)
            s'.rows
  unfolding claim_next claim_rows
  claim_next-none e =
      let rows = fail_exhausted t reclaim_before s.rows in
      go (choose lanes now reclaim_before rows t) refl e
    where
      go :
          (o : Option (ℕ × DocumentFeature))
          → choose lanes now reclaim_before (fail_exhausted t reclaim_before s.rows) t ≡ o
          → (let (rows', claimed) = take_row now (fail_exhausted t reclaim_before s.rows) o in
              ◌≡◌ {A = Ledger × Option DocumentFeature}
                (record s { rows = rows' }, claimed)
                (s', none))
          → (s' ≡ record s { rows = fail_exhausted t reclaim_before s.rows })
            × All
                (λ r. in_tenant t r ≡ true → claimable lanes now reclaim_before s'.rows t r ≡ false)
                s'.rows
      go none c h = (
        sym (ap (λ p. p.0) h),
        subst
            (λ (l : Ledger).
              All
                (λ r. in_tenant t r ≡ true → claimable lanes now reclaim_before l.rows t r ≡ false)
                l.rows)
            (ap (λ p. p.0) h)
            (choose-none lanes now reclaim_before (fail_exhausted t reclaim_before s.rows) t c),
      )
      go (some (i, r)) c h = absurd (cc)
