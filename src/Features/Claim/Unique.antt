-- ===== src/Features/Claim/Unique.antt =====
-- A claim and the keys of the ledger: core/doktok_core/features/inmemory.py.
use doktok_ng.Prelude.{
  ℕ, ◌≡◌, refl, sym, subst, Option, none, some, String, map-set, map-update_all,
}
use doktok_ng.Features.Row.{DocumentFeature}
use doktok_ng.Features.Keys.{key, Distinct, UniqueKeys}
use doktok_ng.Features.Ledger.{Ledger}
use doktok_ng.Features.Ledger.Unique.{Unique}
use doktok_ng.Features.Claim.{Lanes, exhausted, give_up, fail_exhausted, start, claim_next}
use doktok_ng.Features.Claim.Result.{claim_next-IsClaim, claim_next-none}

fail_exhausted-Unique :
    (t : String) (reclaim_before : ℕ) (s : Ledger)
    → Unique s
    → UniqueKeys (fail_exhausted t reclaim_before s.rows)
unfolding fail_exhausted
fail_exhausted-Unique t reclaim_before s h =
    subst Distinct
      (sym (map-update_all key (exhausted t reclaim_before) give_up s.rows (λ x. refl))) h

pub claim_next-Unique :
    (lanes : Lanes) (now reclaim_before : ℕ) (t : String) (s s' : Ledger)
    (claimed : Option DocumentFeature)
    → claim_next lanes now reclaim_before t s ≡ (s', claimed)
    → Unique s
    → Unique s'
claim_next-Unique lanes now reclaim_before t s s' none e h =
    subst Unique (sym (claim_next-none lanes now reclaim_before t s s' e).0)
      (fail_exhausted-Unique t reclaim_before s h)
claim_next-Unique lanes now reclaim_before t s s' (some x) e h =
    let c = claim_next-IsClaim lanes now reclaim_before t s s' x e in
    let rows = fail_exhausted t reclaim_before s.rows in
    subst Unique (sym c.written) (
      subst Distinct (sym (map-set key rows c.place c.row (start now c.row) c.choice.placed refl))
        (fail_exhausted-Unique t reclaim_before s h))
