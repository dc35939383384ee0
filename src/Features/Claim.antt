-- ===== src/Features/Claim.antt =====
-- `claim_next` of the feature ledger: core/doktok_core/features/inmemory.py.
pub mod Choice
pub mod Result
pub mod Limits
pub mod Unique
mod Examples
pub mod Due
pub mod Restarts
pub mod Running
pub mod Groups
pub mod Prerequisites
use doktok_ng.Prelude.{
  ℕ, suc, ◌+◌, Bool, true, false, not, ◌&&◌, ◌||◌, Option, none, some, List, [], ◌∷◌, map, String,
  str_eq, ltb, leb, if◌then◌else◌, set, any, all, count, keep, find_first, update_all, sorted,
  dict_get,
}
use doktok_ng.Features.Row.{
  running, failed, DocumentFeature, is_pending, is_running, is_done, is_failed,
}
use doktok_ng.Features.Ledger.{Ledger}

-- The arguments of `claim_next` that the reconciler holds: the (feature, prerequisite) edges and
-- the limits of the lanes.
pub record Lanes : Type 0 where
  pub dependencies : List (String × String)
  pub lane_limits : List (String × ℕ)
  pub lane_groups : List (String × String)
  pub lane_group_limits : List (String × ℕ)

-- row.last_attempt_at is not None and row.last_attempt_at < reclaim_before
abbrev pub is_before : Option ℕ → ℕ → Bool
is_before none limit = false
is_before (some at) limit = ltb at limit

-- row.next_attempt_at is None or row.next_attempt_at <= now
abbrev pub is_due : Option ℕ → ℕ → Bool
is_due none now = true
is_due (some at) now = leb at now

abbrev pub in_tenant : String → DocumentFeature → Bool
in_tenant t r = str_eq r.tenant_id t

-- The crash bound: a stale running row without attempts left.
unfoldable pub exhausted : String → ℕ → DocumentFeature → Bool
exhausted t reclaim_before r =
    in_tenant t r
    && is_running r.status
    && leb r.max_attempts r.attempts
    && is_before r.last_attempt_at reclaim_before

abbrev pub give_up : DocumentFeature → DocumentFeature
give_up r = record r {
  status = failed;
  last_error = some "attempts exhausted: never ran to completion (likely crashed/OOM)";
  next_attempt_at = none;
}

unfoldable pub fail_exhausted : String → ℕ → List DocumentFeature → List DocumentFeature
fail_exhausted t reclaim_before rows = update_all (exhausted t reclaim_before) give_up rows

abbrev pub runs_feature : String → String → DocumentFeature → Bool
runs_feature t f r = str_eq r.tenant_id t && str_eq r.feature f && is_running r.status

unfoldable pub running_count : List DocumentFeature → String → String → ℕ
running_count rows t f = count (runs_feature t f) rows

-- r.feature in members, where members = {f for f, g in lane_groups.items() if g == group}
abbrev pub in_group : List (String × String) → String → DocumentFeature → Bool
in_group groups group r = any (λ (f, g). str_eq g group && str_eq f r.feature) groups

abbrev pub runs_group : List (String × String) → String → String → DocumentFeature → Bool
runs_group groups t group r = str_eq r.tenant_id t && in_group groups group r && is_running r.status

unfoldable pub group_running : List (String × String) → List DocumentFeature → String → String → ℕ
group_running groups rows t group = count (runs_group groups t group) rows

-- limit is not None and n >= limit
abbrev pub is_full : Option ℕ → ℕ → Bool
is_full none n = false
is_full (some limit) n = leb limit n

unfoldable pub group_full : Lanes → List DocumentFeature → String → Option String → Bool
group_full lanes rows t none = false
group_full lanes rows t (some group) =
    is_full (dict_get lanes.lane_group_limits group) (group_running lanes.lane_groups rows t group)

unfoldable pub lane_open : Lanes → List DocumentFeature → String → DocumentFeature → Bool
lane_open lanes rows t r =
    if is_full (dict_get lanes.lane_limits r.feature) (running_count rows t r.feature)
    then false
    else not (group_full lanes rows t (dict_get lanes.lane_groups r.feature))

-- prereqs.get(feature, set())
abbrev pub prereqs : List (String × String) → String → List String
prereqs dependencies feature =
    map (λ (e : String × String). e.1) (keep (λ (f, p). str_eq f feature) dependencies)

abbrev pub done_on : List DocumentFeature → String → String → String → Bool
done_on rows t d prereq =
    any
      (λ r.
        str_eq r.tenant_id t
        && str_eq r.document_id d
        && str_eq r.feature prereq
        && is_done r.status)
      rows

unfoldable pub ready :
    List (String × String) → List DocumentFeature → String → DocumentFeature → Bool
ready dependencies rows t r = all (done_on rows t r.document_id) (prereqs dependencies r.feature)

unfoldable pub due : ℕ → ℕ → DocumentFeature → Bool
due now reclaim_before r =
    is_pending r.status
    || (is_failed r.status && ltb r.attempts r.max_attempts && is_due r.next_attempt_at now)
    || (is_running r.status
        && ltb r.attempts r.max_attempts
        && is_before r.last_attempt_at reclaim_before)

unfoldable pub claimable : Lanes → ℕ → ℕ → List DocumentFeature → String → DocumentFeature → Bool
claimable lanes now reclaim_before rows t r =
    due now reclaim_before r && ready lanes.dependencies rows t r && lane_open lanes rows t r

abbrev pub is_prereq : List (String × String) → String → Bool
is_prereq dependencies feature = any (λ (f, p). str_eq p feature) dependencies

-- (a.feature not in prereq_features, a.created_at) < (b.feature not in ..., b.created_at)
unfoldable pub earlier : List (String × String) → DocumentFeature → DocumentFeature → Bool
earlier dependencies a b =
    if is_prereq dependencies a.feature
    then (if is_prereq dependencies b.feature then ltb a.created_at b.created_at else true)
    else if is_prereq dependencies b.feature
    then false
    else ltb a.created_at b.created_at

-- A row with its place in the ledger, since the loop assigns to the row object that it finds.
abbrev pub numbered : ℕ → List DocumentFeature → List (ℕ × DocumentFeature)
numbered i [] = []
numbered i (r ∷ rs) = (i, r) ∷ numbered (suc i) rs

abbrev pub candidates :
    List (String × String) → List DocumentFeature → String → List (ℕ × DocumentFeature)
candidates dependencies rows t =
    sorted (λ (i, a) (j, b). earlier dependencies a b)
      (keep (λ (i, r). in_tenant t r) (numbered 0 rows))

abbrev pub start : ℕ → DocumentFeature → DocumentFeature
start now r = record r { status = running; attempts = r.attempts + 1; last_attempt_at = some now }

abbrev pub choose : Lanes → ℕ → ℕ → List DocumentFeature → String → Option (ℕ × DocumentFeature)
choose lanes now reclaim_before rows t =
    find_first (λ (i, r). claimable lanes now reclaim_before rows t r)
      (candidates lanes.dependencies rows t)

abbrev pub take_row :
    ℕ
    → List DocumentFeature
    → Option (ℕ × DocumentFeature)
    → List DocumentFeature × Option DocumentFeature
take_row now rows none = (rows, none)
take_row now rows (some (i, r)) = (set rows i (start now r), some (start now r))

unfoldable pub claim_rows :
    Lanes → ℕ → ℕ → String → List DocumentFeature → List DocumentFeature × Option DocumentFeature
claim_rows lanes now reclaim_before t rows =
    let rows' = fail_exhausted t reclaim_before rows in
    take_row now rows' (choose lanes now reclaim_before rows' t)

unfoldable pub claim_next : Lanes → ℕ → ℕ → String → Ledger → Ledger × Option DocumentFeature
claim_next lanes now reclaim_before t s =
    let (rows', claimed) = claim_rows lanes now reclaim_before t s.rows in
    (record s { rows = rows' }, claimed)
