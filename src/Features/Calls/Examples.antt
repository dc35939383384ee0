-- ===== src/Features/Calls/Examples.antt =====
-- The claims at a life of one document: it is seeded, claimed, finished, and claimed on.
use doktok_ng.Prelude.{All, ℕ, ◌≤◌, refl, none, List, [], ◌∷◌, String, arith, ◌==◌, if◌then◌else◌}
use doktok_ng.Features.Ledger.{Ledger}
use doktok_ng.Features.Ledger.Unique.{Unique}
use doktok_ng.Features.Claim.{Lanes, running_count}
use doktok_ng.Features.Calls.{
  Call, HasLimit, seed, claim_row, finish_row, fail_row, requeue, calls, calls-Unique,
  calls-keep_lane_limit,
}

abbrev uuid : ℕ → String
uuid n = if n == 0 then "x1" else "e1"

abbrev lanes : Lanes
lanes = record {
  dependencies = ("embed", "extract") ∷ [];
  lane_limits = ("embed", 1) ∷ [];
  lane_groups = [];
  lane_group_limits = [];
}

-- No limits.
abbrev wide_lanes : Lanes
wide_lanes = record {
  dependencies = [];
  lane_limits = [];
  lane_groups = [];
  lane_group_limits = [];
}

abbrev empty : Ledger
empty = record { rows = []; active = []; drawn = 0 }

abbrev life : List Call
life =
    seed 1 "acme" "doc1" (("extract", 1) ∷ ("embed", 2) ∷ [])
    ∷ claim_row lanes "acme" 2 0
    ∷ finish_row 3 "x1" 1 none
    ∷ claim_row wide_lanes "other" 3 0
    ∷ claim_row lanes "acme" 4 0
    ∷ requeue "acme"
    ∷ claim_row lanes "acme" 5 0
    ∷ fail_row "e1" "no model" 9
    ∷ []

calls-Unique_example : Unique (calls uuid life empty)
calls-Unique_example = calls-Unique uuid life empty tt

limited : All (HasLimit "acme" "embed" 1) life
unfolding HasLimit
limited = (tt, (λ h. refl, (tt, (λ h. cc, (λ h. refl, (tt, (λ h. refl, (tt, tt))))))))

calls-keep_lane_limit_example : running_count (calls uuid life empty).rows "acme" "embed" ≤ 1
calls-keep_lane_limit_example =
    calls-keep_lane_limit uuid "acme" "embed" 1 life empty limited
      (unfold running_count in omega arith)
