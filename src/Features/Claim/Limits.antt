-- ===== src/Features/Claim/Limits.antt =====
-- A claim, the limits of the lanes, and the rows of other tenants:
-- core/doktok_core/features/inmemory.py.
use doktok_ng.Prelude.{
  ℕ, ◌+◌, ◌≤◌, ◌<◌, ◌≡◌, refl, str_eq, count, count-keep, sym, ap, ◌∙◌, subst, inl, inr, Bool, true,
  false, not, Option, none, some, List, String, arith, str_eq→eq, Bool-cases, get_elem?, set, keep,
  weight, count-set, count-update_le, keep-set, keep-update_all, dict_get,
}
use doktok_ng.Features.Row.{DocumentFeature}
use doktok_ng.Features.Ledger.{Ledger}
use doktok_ng.Features.Claim.{
  Lanes, in_tenant, exhausted, give_up, fail_exhausted, runs_feature, running_count, lane_open,
  start, claim_next,
}
use doktok_ng.Features.Claim.Result.{claim_next-IsClaim, claim_next-none, claimable_parts}

running_count-fail_exhausted :
    (t t' f : String) (reclaim_before : ℕ) (rows : List DocumentFeature)
    → running_count (fail_exhausted t reclaim_before rows) t' f ≤ running_count rows t' f
unfolding running_count fail_exhausted
running_count-fail_exhausted t t' f reclaim_before rows =
    count-update_le (runs_feature t' f) (exhausted t reclaim_before) give_up rows
      (λ x h. ground arith)

-- Starting a row adds at most one to the count of its own feature, and nothing to another's.
running_count-start :
    (rows : List DocumentFeature) (t f : String) (i now : ℕ) (r : DocumentFeature)
    → get_elem? rows i ≡ some r
    → running_count (set rows i (start now r)) t f
      ≤ running_count rows t f + weight (str_eq r.feature f)
unfolding running_count
running_count-start rows t f i now r placed =
    ground (arith, count-set (runs_feature t f) rows i r (start now r) placed)

-- An open lane has room.
lane_open-room :
    (lanes : Lanes) (rows : List DocumentFeature) (t : String) (r : DocumentFeature) (limit : ℕ)
    → dict_get lanes.lane_limits r.feature ≡ some limit
    → lane_open lanes rows t r ≡ true
    → running_count rows t r.feature < limit
unfolding lane_open
lane_open-room lanes rows t r limit e h = ground arith

abbrev pub other_tenant : String → DocumentFeature → Bool
other_tenant t r = not (in_tenant t r)

fail_exhausted-other_tenant :
    (t : String) (reclaim_before : ℕ) (rows : List DocumentFeature)
    → keep (other_tenant t) (fail_exhausted t reclaim_before rows) ≡ keep (other_tenant t) rows
unfolding fail_exhausted exhausted
fail_exhausted-other_tenant t reclaim_before rows =
    keep-update_all (other_tenant t) (exhausted t reclaim_before) give_up rows (λ x h. ground arith)

runs_feature-other_tenant :
    (t t' f : String) (r : DocumentFeature)
    → str_eq t t' ≡ false
    → runs_feature t f r ≡ true
    → other_tenant t' r ≡ true
runs_feature-other_tenant t t' f r apart h = elim (Bool-cases (in_tenant t' r)) [
  | inl own ↦
      let mine : in_tenant t r ≡ true = ground (arith, h) in
      let eq = str_eq→eq r.tenant_id t mine in
      let same : str_eq t t' ≡ true = ap (λ x. str_eq x t') (sym eq) ∙ own in absurd (cc)
  | inr other ↦ rw other refl
]

module _ (lanes : Lanes) (now reclaim_before : ℕ) (t : String) (s s' : Ledger) where
  -- `claim_next` keeps the limit of every lane: a feature whose running rows of the tenant are
  -- within its limit before the call is within it afterwards, whether or not a row was claimed.
  pub claim_next-keeps_lane_limit :
      (f : String) (limit : ℕ) (claimed : Option DocumentFeature)
      → dict_get lanes.lane_limits f ≡ some limit
      → claim_next lanes now reclaim_before t s ≡ (s', claimed)
      → running_count s.rows t f ≤ limit
      → running_count s'.rows t f ≤ limit
  claim_next-keeps_lane_limit f limit none has e h =
      rw ((claim_next-none lanes now reclaim_before t s s' e).0)
        (omega (arith, running_count-fail_exhausted t t f reclaim_before s.rows))
  claim_next-keeps_lane_limit f limit (some x) has e h =
      let c = claim_next-IsClaim lanes now reclaim_before t s s' x e in
      let rows = fail_exhausted t reclaim_before s.rows in
      let open_lane = (claimable_parts lanes now reclaim_before rows t c.row c.choice.passes).2 in
      let more = running_count-start rows t f c.place now c.row c.choice.placed in
      let fewer = running_count-fail_exhausted t t f reclaim_before s.rows in
      subst (λ (l : Ledger). running_count l.rows t f ≤ limit) (sym c.written)
        (elim (Bool-cases (str_eq c.row.feature f)) [
          | inl same ↦
              let eq = str_eq→eq c.row.feature f same in
              let room =
                subst
                  (λ k. dict_get lanes.lane_limits k ≡ some limit → running_count rows t k < limit)
                  eq (λ e. lane_open-room lanes rows t c.row limit e open_lane) in
              omega (arith, room has, more, ap weight same)
          | inr other ↦ omega (arith, more, fewer, ap weight other)
        ])

  -- `claim_next` leaves the rows of every other tenant as they are, in their order.
  pub claim_next-other_tenants :
      (claimed : Option DocumentFeature)
      → claim_next lanes now reclaim_before t s ≡ (s', claimed)
      → keep (other_tenant t) s'.rows ≡ keep (other_tenant t) s.rows
  claim_next-other_tenants none e =
      rw ((claim_next-none lanes now reclaim_before t s s' e).0)
        (fail_exhausted-other_tenant t reclaim_before s.rows)
  claim_next-other_tenants (some x) e =
      let c = claim_next-IsClaim lanes now reclaim_before t s s' x e in
      subst (λ (l : Ledger). keep (other_tenant t) l.rows ≡ keep (other_tenant t) s.rows)
        (sym c.written)
        (keep-set (other_tenant t) (fail_exhausted t reclaim_before s.rows) c.place c.row
            (start now c.row) c.choice.placed (ap not c.choice.owned) (ap not c.choice.owned)
          ∙ fail_exhausted-other_tenant t reclaim_before s.rows)

-- A claim of another tenant leaves the running rows of a tenant's feature as many as they were.
pub running_count-other_tenant :
    (lanes : Lanes) (now reclaim_before : ℕ) (t' : String) (s : Ledger) (t f : String)
    → str_eq t t' ≡ false
    → running_count (claim_next lanes now reclaim_before t' s).0.rows t f ≡ running_count s.rows t f
unfolding running_count
running_count-other_tenant lanes now reclaim_before t' s t f apart =
    let result = claim_next lanes now reclaim_before t' s in
    let within : (r : DocumentFeature) → runs_feature t f r ≡ true → other_tenant t' r ≡ true =
      λ r h. runs_feature-other_tenant t t' f r apart h in
    sym (count-keep (runs_feature t f) (other_tenant t') result.0.rows within)
    ∙ ap (λ rows. count (runs_feature t f) rows)
        (claim_next-other_tenants lanes now reclaim_before t' s result.0 result.1 refl)
    ∙ count-keep (runs_feature t f) (other_tenant t') s.rows within
