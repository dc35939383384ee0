-- ===== src/Features/Claim/Running.antt =====
-- The running rows of a tenant, through a claim.
use doktok_ng.Prelude.{
  ℕ, zero, suc, ◌+◌, ◌≤◌, ◌≡◌, refl, sym, subst, true, none, some, List, [], ◌∷◌, String, arith,
  get_elem?, set, count, count-set, count-update_le,
}
use doktok_ng.Features.Row.{DocumentFeature}
use doktok_ng.Features.Ledger.{Ledger, tenant_running}
use doktok_ng.Features.Claim.{Lanes, exhausted, give_up, fail_exhausted, start, claim_next}
use doktok_ng.Features.Claim.Result.{claim_next-IsClaim, claim_next-none}

-- How many rows of the tenant are running.
abbrev pub running_total : String → Ledger → ℕ
running_total t s = count (tenant_running t) s.rows

-- The row stands somewhere in the ledger, and is a running row of the tenant.
pub record Holds (t : String) (s : Ledger) (x : DocumentFeature) : Type 0 where
  pub place : ℕ
  pub placed : get_elem? s.rows place ≡ some x
  pub runs : tenant_running t x ≡ true

get_elem?-set_placed :
    (rows : List DocumentFeature) (i : ℕ) (r x : DocumentFeature)
    → get_elem? rows i ≡ some r
    → get_elem? (set rows i x) i ≡ some x
get_elem?-set_placed [] i r x h = cc
get_elem?-set_placed (y ∷ ys) zero r x h = refl
get_elem?-set_placed (y ∷ ys) (suc i) r x h = get_elem?-set_placed ys i r x h

count-fail_exhausted :
    (t : String) (reclaim_before : ℕ) (s : Ledger)
    → count (tenant_running t) (fail_exhausted t reclaim_before s.rows) ≤ running_total t s
unfolding fail_exhausted
count-fail_exhausted t reclaim_before s =
    count-update_le (tenant_running t) (exhausted t reclaim_before) give_up s.rows
      (λ x h. ground arith)

module _ (lanes : Lanes) (now reclaim_before : ℕ) (t : String) (s s' : Ledger) where
  -- The row that a claim returns is held by the ledger, and is the only one that it started.
  pub claim_next-Holds :
      (x : DocumentFeature)
      → claim_next lanes now reclaim_before t s ≡ (s', some x)
      → Holds t s' x × (running_total t s' ≤ running_total t s + 1)
  claim_next-Holds x e =
      let c = claim_next-IsClaim lanes now reclaim_before t s s' x e in
      let rows = fail_exhausted t reclaim_before s.rows in
      let fewer = count-fail_exhausted t reclaim_before s in
      let more =
        count-set (tenant_running t) rows c.place c.row (start now c.row) c.choice.placed in
      subst (λ (y : DocumentFeature). Holds t s' y × (running_total t s' ≤ running_total t s + 1))
        (sym c.started)
        (subst
          (λ (l : Ledger).
            Holds t l (start now c.row) × (running_total t l ≤ running_total t s + 1))
          (sym c.written)
          (
            record {
              place = c.place;
              placed = get_elem?-set_placed rows c.place c.row (start now c.row) c.choice.placed;
              runs = ground (arith, c.choice.owned);
            },
            ground (arith, fewer, more),
          ))

  pub claim_next-starts_none :
      claim_next lanes now reclaim_before t s ≡ (s', none) → running_total t s' ≤ running_total t s
  claim_next-starts_none e =
      rw ((claim_next-none lanes now reclaim_before t s s' e).0)
        (count-fail_exhausted t reclaim_before s)
