-- ===== src/Features/Reconciler/Examples.antt =====
-- The claims at a reconciler of two processors, the second of which fails.
use doktok_ng.Prelude.{
  ◌≤◌, ◌<◌, ◌+◌, ◌≡◌, refl, true, false, none, some, [], ◌∷◌, arith, ◌==◌, if◌then◌else◌, All,
}
use doktok_ng.Features.Row.{DocumentFeature, failed}
use doktok_ng.Features.Ledger.{new_row, has_id, mark_done, mark_failed}
use doktok_ng.Features.Claim.{
  start, due, claim_next, claim_rows, fail_exhausted, exhausted, claimable, ready, lane_open,
  group_full, running_count, group_running, earlier,
}
use doktok_ng.Features.Claim.Running.{running_total}
use doktok_ng.Features.Reconciler.{
  Environment, Reconciler, Processor, World, completed, raised, find_processor, metrics_of,
  take_text, dependency_edges, process, claim, backoff, drain,
}
use doktok_ng.Features.Reconciler.Drain.{drain-running, IsDrained, drain-IsDrained}
use doktok_ng.Features.Reconciler.Outcomes.{process-backs_off}

abbrev embed : Processor
embed = record { name = "embed"; version = 2; dependencies = []; model = "" }

abbrev title : Processor
title = record { name = "title"; version = 1; dependencies = "embed" ∷ []; model = "small" }

abbrev reconciler : Reconciler
reconciler = record {
  processors = embed ∷ title ∷ [];
  tenant_ids = "acme" ∷ [];
  backoff_base = 30;
  lease = 1800;
  max_per_pass = 4;
  lane_limits = ("embed", 1) ∷ [];
  lane_groups = [];
  lane_group_limits = [];
  has_audit_log = true;
}

-- The first run returns, and every other raises.
abbrev env : Environment
env = record {
  uuid = λ n. "id";
  clock = λ n. 100 + n;
  stamp = λ n. 200 + n;
  elapsed_ms = λ n. 7;
  outcome = λ n. if n == 0 then completed none else raised "no model";
}

abbrev title_row : DocumentFeature
title_row = start 90 (new_row "t1" "acme" "doc1" "title" 1 6)

abbrev embed_row : DocumentFeature
embed_row = start 90 (new_row "e1" "acme" "doc1" "embed" 2 5)

abbrev world : World
world = record {
  ledger = record {
    rows = new_row "e1" "acme" "doc1" "embed" 2 5 ∷ new_row "t1" "acme" "doc1" "title" 1 6 ∷ [];
    active = [];
    drawn = 2;
  };
  activity = [];
  ticks = 0;
  runs = 0;
}

abbrev later : World
later = record world { runs = 1 }

drain-running_example :
    running_total "acme" (drain env reconciler 4 "acme" world).0.ledger
    ≤ running_total "acme" world.ledger
drain-running_example = drain-running env reconciler "acme" 4 world

known_title : find_processor title_row.feature reconciler.processors ≡ some title
unfolding find_processor
known_title = refl

known_embed : find_processor embed_row.feature reconciler.processors ≡ some embed
unfolding find_processor
known_embed = refl

process-backs_off_example :
    All
      (λ r.
        has_id "t1" r ≡ true
        → (r.status ≡ failed) × (r.last_error ≡ some "no model") × (due 120 0 r ≡ false))
      (process env reconciler "acme" title_row later).ledger.rows
process-backs_off_example =
    process-backs_off env reconciler "acme" title_row later title known_title "no model" 120 0 refl
      (omega arith)

-- Both rows run once, and then the title waits for its backoff.
drained_early : (drain env reconciler 4 "acme" world).1 < 4
unfolding drain process dependency_edges claim backoff find_processor metrics_of take_text
    claim_next claim_rows fail_exhausted exhausted claimable due ready lane_open group_full
    running_count group_running earlier mark_done mark_failed
drained_early = omega arith

drain-IsDrained_example : IsDrained env reconciler "acme" (drain env reconciler 4 "acme" world).0
drain-IsDrained_example = drain-IsDrained env reconciler "acme" 4 world drained_early
