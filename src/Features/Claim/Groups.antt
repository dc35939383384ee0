-- ===== src/Features/Claim/Groups.antt =====
-- A claim and the shared budget of a group of lanes: core/doktok_core/features/inmemory.py.
use doktok_ng.Prelude.{
  ℕ, ◌+◌, ◌≤◌, ◌<◌, ◌≡◌, str_eq, refl, sym, ap, subst, inl, inr, true, false, Option, none, some,
  List, [], ◌∷◌, String, arith, eq_iff, str_eq→eq, Bool-cases, get_elem?, set, All, weight,
  count-set, count-update_le, dict_get, IsDict,
}
use doktok_ng.Features.Row.{DocumentFeature}
use doktok_ng.Features.Ledger.{Ledger}
use doktok_ng.Features.Claim.{
  Lanes, exhausted, give_up, fail_exhausted, in_group, runs_group, group_running, group_full,
  lane_open, start, claim_next,
}
use doktok_ng.Features.Claim.Result.{claim_next-IsClaim, claim_next-none, claimable_parts}

module _ (group : String) (r : DocumentFeature) where
  not_in_group :
      (groups : List (String × String))
      → All (λ e. str_eq e.0 r.feature ≡ false) groups
      → in_group groups group r ≡ false
  not_in_group [] h = refl
  not_in_group ((f, g) ∷ rest) h = ground (arith, not_in_group rest h.1)

  -- In a dict, a member of the group is looked up in the group.
  in_group→get :
      (groups : List (String × String))
      → IsDict groups
      → in_group groups group r ≡ true
      → dict_get groups r.feature ≡ some group
  in_group→get [] once h = cc
  in_group→get ((f, g) ∷ rest) once h = elim (Bool-cases (str_eq f r.feature)) [
    | inl same ↦
        let eq = str_eq→eq f r.feature same in
        let outside =
          not_in_group rest (subst (λ k. All (λ e. str_eq e.0 k ≡ false) rest) eq once.0) in
        ground (arith, outside, eq_iff g group)
    | inr other ↦ ground (arith, in_group→get rest once.1)
  ]

group_running-fail_exhausted :
    (groups : List (String × String)) (t group : String) (reclaim_before : ℕ)
    (rows : List DocumentFeature)
    → group_running groups (fail_exhausted t reclaim_before rows) t group
      ≤ group_running groups rows t group
unfolding group_running fail_exhausted
group_running-fail_exhausted groups t group reclaim_before rows =
    count-update_le (runs_group groups t group) (exhausted t reclaim_before) give_up rows
      (λ x h. ground arith)

group_running-start :
    (groups : List (String × String)) (rows : List DocumentFeature) (t group : String) (i now : ℕ)
    (r : DocumentFeature)
    → get_elem? rows i ≡ some r
    → group_running groups (set rows i (start now r)) t group
      ≤ group_running groups rows t group + weight (in_group groups group r)
unfolding group_running
group_running-start groups rows t group i now r placed =
    ground (arith, count-set (runs_group groups t group) rows i r (start now r) placed)

group_full-room :
    (lanes : Lanes) (rows : List DocumentFeature) (t group : String) (limit : ℕ)
    → dict_get lanes.lane_group_limits group ≡ some limit
    → group_full lanes rows t (some group) ≡ false
    → group_running lanes.lane_groups rows t group < limit
unfolding group_full
group_full-room lanes rows t group limit e h = ground arith

lane_open-group :
    (lanes : Lanes) (rows : List DocumentFeature) (t : String) (r : DocumentFeature)
    → lane_open lanes rows t r ≡ true
    → group_full lanes rows t (dict_get lanes.lane_groups r.feature) ≡ false
unfolding lane_open
lane_open-group lanes rows t r h = ground arith

module _ (lanes : Lanes) (now reclaim_before : ℕ) (t : String) (s s' : Ledger) where
  -- `claim_next` keeps the shared limit of every group of features: where the running rows of the
  -- tenant with a feature of the group are within the group's limit before the call, they are
  -- within it afterwards. `lane_groups` is a dict, so each feature has one group.
  pub claim_next-keeps_group_limit :
      (group : String) (limit : ℕ) (claimed : Option DocumentFeature)
      → IsDict lanes.lane_groups
      → dict_get lanes.lane_group_limits group ≡ some limit
      → claim_next lanes now reclaim_before t s ≡ (s', claimed)
      → group_running lanes.lane_groups s.rows t group ≤ limit
      → group_running lanes.lane_groups s'.rows t group ≤ limit
  claim_next-keeps_group_limit group limit none once has e h =
      rw ((claim_next-none lanes now reclaim_before t s s' e).0) (
        omega (arith, group_running-fail_exhausted lanes.lane_groups t group reclaim_before s.rows))
  claim_next-keeps_group_limit group limit (some x) once has e h =
      let c = claim_next-IsClaim lanes now reclaim_before t s s' x e in
      let rows = fail_exhausted t reclaim_before s.rows in
      let groups = lanes.lane_groups in
      let open_lane = (claimable_parts lanes now reclaim_before rows t c.row c.choice.passes).2 in
      let more = group_running-start groups rows t group c.place now c.row c.choice.placed in
      let fewer = group_running-fail_exhausted groups t group reclaim_before s.rows in
      subst (λ (l : Ledger). group_running groups l.rows t group ≤ limit) (sym c.written)
        (elim (Bool-cases (in_group groups group c.row)) [
          | inl inside ↦
              let room = group_full-room lanes rows t group limit has (
                subst (λ g. group_full lanes rows t g ≡ false)
                  (in_group→get group c.row groups once inside)
                  (lane_open-group lanes rows t c.row open_lane)) in
              omega (arith, room, more, ap weight inside)
          | inr outside ↦ omega (arith, more, fewer, ap weight outside)
        ])
