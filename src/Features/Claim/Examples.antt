-- ===== src/Features/Claim/Examples.antt =====
-- The claims at a small queue: a document whose text is extracted, one that waits for it, and a
-- document of another tenant.
use doktok_ng.Prelude.{◌≤◌, ◌≡◌, ◌+◌, refl, true, false, none, some, [], ◌∷◌, arith, All}
use doktok_ng.Features.Row.{DocumentFeature}
use doktok_ng.Features.Ledger.{Ledger, new_row, done_row}
use doktok_ng.Features.Claim.{
  Lanes, in_tenant, exhausted, fail_exhausted, done_on, prereqs, ready, due, lane_open, group_full,
  running_count, group_running, claimable, earlier, start, claim_rows, claim_next,
}
use doktok_ng.Features.Claim.Result.{IsClaim, claim_next-IsClaim, claim_next-none}
use doktok_ng.Features.Claim.Prerequisites.{claim_next-has_prerequisites}
use doktok_ng.Features.Claim.Groups.{claim_next-keeps_group_limit}
use doktok_ng.Features.Claim.Restarts.{IsRunningAlone, crashes, crashes-unbounded}

abbrev lanes : Lanes
lanes = record {
  dependencies = ("embed", "extract") ∷ [];
  lane_limits = ("embed", 2) ∷ [];
  lane_groups = ("embed", "llm") ∷ [];
  lane_group_limits = ("llm", 1) ∷ [];
}

abbrev embed : DocumentFeature
embed = new_row "e1" "acme" "doc1" "embed" 1 5

abbrev waiting : DocumentFeature
waiting = new_row "e2" "acme" "doc2" "embed" 1 4

abbrev queue : Ledger
queue = record {
  rows =
      waiting
      ∷ done_row "x1" "acme" "doc1" "extract" 1 3
      ∷ embed
      ∷ new_row "o1" "other" "doc9" "embed" 1 1
      ∷ [];
  active = [];
  drawn = 0;
}

-- The row of the first document is claimed, though the other is older: it waits for its text.
abbrev taken : Ledger
taken = record queue {
  rows =
      waiting
      ∷ done_row "x1" "acme" "doc1" "extract" 1 3
      ∷ start 10 embed
      ∷ new_row "o1" "other" "doc9" "embed" 1 1
      ∷ [];
}

queue_claimed : claim_next lanes 10 0 "acme" queue ≡ (taken, some (start 10 embed))
unfolding claim_next claim_rows fail_exhausted exhausted claimable due ready lane_open group_full
    running_count group_running earlier
queue_claimed = refl

-- With one embedding at work the group is full.
taken_closed : claim_next lanes 11 0 "acme" taken ≡ (taken, none)
unfolding claim_next claim_rows fail_exhausted exhausted claimable due ready lane_open group_full
    running_count group_running earlier
taken_closed = refl

claim_next-IsClaim_example : IsClaim lanes 10 0 "acme" queue taken (start 10 embed)
claim_next-IsClaim_example =
    claim_next-IsClaim lanes 10 0 "acme" queue taken (start 10 embed) queue_claimed

claim_next-none_example :
    (taken ≡ record taken { rows = fail_exhausted "acme" 0 taken.rows })
    × All
        (λ r. in_tenant "acme" r ≡ true → claimable lanes 11 0 taken.rows "acme" r ≡ false)
        taken.rows
claim_next-none_example = claim_next-none lanes 11 0 "acme" taken taken taken_closed

claim_next-has_prerequisites_example :
    All
      (λ prereq. done_on taken.rows "acme" "doc1" prereq ≡ true)
      (prereqs lanes.dependencies "embed")
claim_next-has_prerequisites_example =
    claim_next-has_prerequisites lanes 10 0 "acme" queue taken (start 10 embed) queue_claimed

nothing_runs : group_running lanes.lane_groups queue.rows "acme" "llm" ≤ 1
unfolding group_running
nothing_runs = omega arith

claim_next-keeps_group_limit_example : group_running lanes.lane_groups taken.rows "acme" "llm" ≤ 1
claim_next-keeps_group_limit_example =
    claim_next-keeps_group_limit lanes 10 0 "acme" queue taken "llm" 1 (some (start 10 embed))
      (tt, tt) refl queue_claimed nothing_runs

-- A row that has used its three attempts.
abbrev worn_out : DocumentFeature
worn_out = record (start 10 embed) { attempts = 3 }

abbrev alone : Ledger
alone = record queue { rows = worn_out ∷ [] }

alone-IsRunningAlone : IsRunningAlone "acme" 3 3 alone
alone-IsRunningAlone = record {
  row = worn_out;
  alone = refl;
  owned = refl;
  runs = refl;
  used = refl;
  allowed = refl;
}

crashes-unbounded_example : IsRunningAlone "acme" (3 + 5) 3 (crashes 5 20 15 "acme" alone)
crashes-unbounded_example = crashes-unbounded 5 20 15 "acme" alone 3 3 alone-IsRunningAlone
