-- ===== src/Features/Claim/Prerequisites.antt =====
-- A claim and the prerequisites of its stage: core/doktok_core/features/inmemory.py.
use doktok_ng.Prelude.{
  ℕ, ◌≡◌, sym, subst, true, false, some, List, String, arith, get_elem?, All, All-map, all→All,
  any-set, set,
}
use doktok_ng.Features.Row.{DocumentFeature, is_done}
use doktok_ng.Features.Ledger.{Ledger}
use doktok_ng.Features.Claim.{
  Lanes, fail_exhausted, done_on, prereqs, ready, due, start, claim_next,
}
use doktok_ng.Features.Claim.Result.{claim_next-IsClaim, claimable_parts}

due→not_done :
    (now reclaim_before : ℕ) (r : DocumentFeature)
    → due now reclaim_before r ≡ true
    → is_done r.status ≡ false
unfolding due
due→not_done now reclaim_before r h = ground arith

done_on-set :
    (rows : List DocumentFeature) (t d prereq : String) (i : ℕ) (r x : DocumentFeature)
    → get_elem? rows i ≡ some r
    → is_done r.status ≡ false
    → done_on rows t d prereq ≡ true
    → done_on (set rows i x) t d prereq ≡ true
done_on-set rows t d prereq i r x placed undone h = any-set _ rows i r x placed (ground arith) h

module _ (lanes : Lanes) (now reclaim_before : ℕ) (t : String) (s s' : Ledger) where
  -- When `claim_next` returns a row, every prerequisite that the dependency edges give for its
  -- feature has a done row on the same document of the same tenant, in the ledger that
  -- `claim_next` leaves.
  pub claim_next-has_prerequisites :
      (x : DocumentFeature)
      → claim_next lanes now reclaim_before t s ≡ (s', some x)
      → All
          (λ prereq. done_on s'.rows t x.document_id prereq ≡ true)
          (prereqs lanes.dependencies x.feature)
  unfolding ready
  claim_next-has_prerequisites x e =
      let c = claim_next-IsClaim lanes now reclaim_before t s s' x e in
      let rows = fail_exhausted t reclaim_before s.rows in
      let parts = claimable_parts lanes now reclaim_before rows t c.row c.choice.passes in
      let all_done =
        All-map (λ prereq. done_on rows t c.row.document_id prereq ≡ true)
          (λ prereq. done_on (set rows c.place (start now c.row)) t c.row.document_id prereq ≡ true)
          (prereqs lanes.dependencies c.row.feature)
          (λ prereq.
            done_on-set rows t c.row.document_id prereq c.place c.row (start now c.row)
              c.choice.placed (due→not_done now reclaim_before c.row parts.0))
          (all→All (done_on rows t c.row.document_id) (prereqs lanes.dependencies c.row.feature)
            parts.1) in
      subst
        (λ (l : Ledger).
          All (λ prereq. done_on l.rows t x.document_id prereq ≡ true)
            (prereqs lanes.dependencies x.feature))
        (sym c.written)
        (subst
          (λ (y : DocumentFeature).
            All
              (λ prereq. done_on (set rows c.place (start now c.row)) t y.document_id prereq ≡ true)
              (prereqs lanes.dependencies y.feature))
          (sym c.started) all_done)
