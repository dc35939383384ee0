-- ===== src/Features/Reconciler.antt =====
-- The feature reconciler, one worker: core/doktok_core/features/reconciler.py.
-- A processor's work lies outside of the ledger; what the reconciler sees of it, the result of
-- the call, the time that it took and the usage that it reports, comes from `Environment`, by the
-- number of the run, as the clock's readings come by the number of the reading.
pub mod Drain
mod Examples
pub mod Outcomes
use Prim.Native.String.{◌++◌ as str_append}
use doktok_ng.Prelude.{
  ℕ, zero, suc, ◌+◌, ◌-◌, ◌*◌, ◌^◌, Bool, Option, none, some, List, [], ◌∷◌, ◌++◌, map, String,
  str_eq, if◌then◌else◌,
}
use doktok_ng.Features.Row.{FeatureMetrics, DocumentFeature, no_metrics}
use doktok_ng.Features.Ledger.{Ledger, ensure_for_active, mark_done, mark_failed, requeue_running}
use doktok_ng.Features.Claim.{Lanes, claim_next}

-- LlmUsage of contracts/doktok_contracts/media.py, without the times, which `_metrics` does not read
pub record LlmUsage : Type 0 where
  pub prompt_tokens : ℕ
  pub answer_tokens : ℕ
  pub reasoning_tokens : ℕ
  pub estimated : Bool

abbrev pub tokens_in_total : LlmUsage → ℕ
tokens_in_total u = u.prompt_tokens + u.answer_tokens + u.reasoning_tokens

-- What `processor.process` does: it returns, after which `get_last_usage()` may give a usage, or
-- it raises an exception with this text.
pub data Outcome : Type 0 where
  completed : Option LlmUsage → Outcome
  raised : String → Outcome

pub record Processor : Type 0 where
  pub name : String
  pub version : ℕ
  pub dependencies : List String
  pub model : String

pub record Environment : Type 0 where
  pub uuid : ℕ → String
  pub clock : ℕ → ℕ
  -- datetime.now(), which the ledger calls
  pub stamp : ℕ → ℕ
  pub elapsed_ms : ℕ → ℕ
  pub outcome : ℕ → Outcome

-- `backoff_base` and `lease` are durations in the unit of the clock.
pub record Reconciler : Type 0 where
  pub processors : List Processor
  pub tenant_ids : List String
  pub backoff_base : ℕ
  pub lease : ℕ
  pub max_per_pass : ℕ
  pub lane_limits : List (String × ℕ)
  pub lane_groups : List (String × String)
  pub lane_group_limits : List (String × ℕ)
  pub has_audit_log : Bool

pub data EventType : Type 0 where
  feature_completed : FeatureMetrics → EventType
  feature_failed : String → ℕ → EventType

-- A row of the activity trail, with the details of the run.
pub record Activity : Type 0 where
  pub tenant_id : String
  pub event : EventType
  pub document_id : String
  pub record_id : String
  pub severity : String
  pub description : String

-- The ledger, the activity trail, and how often the clock was read and a processor was run.
pub record World : Type 0 where
  pub ledger : Ledger
  pub activity : List Activity
  pub ticks : ℕ
  pub runs : ℕ

-- {p.name: p for p in processors}.get(name): the last of the name
pub find_processor : String → List Processor → Option Processor
find_processor name [] = none
find_processor name (p ∷ ps) = elim (find_processor name ps) [
  | some q ↦ some q
  | none ↦ if str_eq p.name name then some p else none
]

abbrev pub edges_of : String → List String → List (String × String)
edges_of name prereqs = map (λ prereq. (name, prereq)) prereqs

pub dependency_edges : List Processor → List (String × String)
dependency_edges [] = []
dependency_edges (p ∷ ps) = edges_of p.name p.dependencies ++ dependency_edges ps

abbrev pub lanes_of : Reconciler → Lanes
lanes_of rec = record {
  dependencies = dependency_edges rec.processors;
  lane_limits = rec.lane_limits;
  lane_groups = rec.lane_groups;
  lane_group_limits = rec.lane_group_limits;
}

-- the pairs of `self._registered`
abbrev pub registered : List Processor → List (String × ℕ)
registered ps = map (λ (p : Processor). (p.name, p.version)) ps

pub metrics_of : Processor → ℕ → Option LlmUsage → FeatureMetrics
metrics_of p duration none = record no_metrics { duration_ms = duration }
metrics_of p duration (some u) = record {
  duration_ms = duration;
  prompt_tokens = u.prompt_tokens;
  answer_tokens = u.answer_tokens;
  total_tokens = tokens_in_total u;
  model = p.model;
  estimated = u.estimated;
}

-- text[:n]
pub take_text : ℕ → String → String
take_text zero s = ""
take_text (suc n) String.[] = ""
take_text (suc n) (String.◌∷◌ c s) = String.◌∷◌ c (take_text n s)

module _ (env : Environment) (rec : Reconciler) where
  -- `record_activity` is never allowed to fail; without an audit log there is nothing to write
  abbrev pub record_event : String → EventType → DocumentFeature → String → String → World → World
  record_event t event row severity description w =
      if rec.has_audit_log
      then record w {
        activity =
            w.activity
            ++ record {
              tenant_id = t;
              event = event;
              document_id = row.document_id;
              record_id = row.feature;
              severity = severity;
              description = description;
            }
              ∷ [];
      }
      else w

  -- now = self._clock(); the lease may reach back before the first instant
  pub claim : String → World → World × Option DocumentFeature
  claim t w =
      let now = env.clock w.ticks in
      let (ledger', row) = claim_next (lanes_of rec) now (now - rec.lease) t w.ledger in
      (record w { ledger = ledger'; ticks = w.ticks + 1 }, row)

  pub backoff : ℕ → ℕ
  backoff attempts = rec.backoff_base * 2 ^ (attempts - 1)

  pub finish : String → DocumentFeature → Processor → Outcome → World → World
  finish t row p (completed usage) w =
      let metrics = metrics_of p (env.elapsed_ms w.runs) usage in
      let ledger' = mark_done (env.stamp w.ticks) row.id p.version (some metrics) w.ledger in
      record_event t (feature_completed metrics) row "info" (str_append row.feature " completed")
        (record w { ledger = ledger'; runs = w.runs + 1 })
  finish t row p (raised error) w =
      let next = env.clock w.ticks + backoff row.attempts in
      record_event t (feature_failed error row.attempts) row "error"
        (take_text 240 (str_append row.feature (str_append " failed: " error)))
        (record w {
          ledger = mark_failed row.id error next w.ledger;
          ticks = w.ticks + 1;
          runs = w.runs + 1;
        })

  -- A row without a processor, a retired feature, is closed.
  process_with : Option Processor → String → DocumentFeature → World → World
  process_with none t row w = record w {
    ledger = mark_done (env.stamp w.ticks) row.id row.feature_version none w.ledger;
  }
  process_with (some p) t row w = finish t row p (env.outcome w.runs) w

  pub process : String → DocumentFeature → World → World
  unfolding process_with finish
  process t row w = process_with (find_processor row.feature rec.processors) t row w

  -- the body of the loop behind the claim; `rest` is the rest of the loop
  drain_found : (World → World × ℕ) → String → World → Option DocumentFeature → World × ℕ
  drain_found rest t w none = (w, 0)
  drain_found rest t w (some row) =
      let (w', processed) = rest (process t row w) in (w', suc processed)

  -- `for _ in range(n)`, with its `break`
  pub drain : ℕ → String → World → World × ℕ
  unfolding drain_found
  drain zero t w = (w, 0)
  drain (suc n) t w = let (w', found) = claim t w in drain_found (drain n t) t w' found

  pub reconcile_tenants : List String → World → World × ℕ
  reconcile_tenants [] w = (w, 0)
  reconcile_tenants (t ∷ ts) w =
      let seeded =
        ensure_for_active env.uuid (env.stamp w.ticks) t (registered rec.processors) w.ledger in
      let (w', n) = drain rec.max_per_pass t (record w { ledger = seeded.0 }) in
      let (w'', m) = reconcile_tenants ts w' in (w'', n + m)

  pub reconcile : World → World × ℕ
  reconcile w = reconcile_tenants rec.tenant_ids w

  pub recover_tenants : List String → World → World × ℕ
  recover_tenants [] w = (w, 0)
  recover_tenants (t ∷ ts) w =
      let (ledger', n) = requeue_running t w.ledger in
      let (w', m) = recover_tenants ts (record w { ledger = ledger' }) in (w', n + m)

  pub recover_running : World → World × ℕ
  recover_running w = recover_tenants rec.tenant_ids w

-- self._processors, self._registered and self._dependencies are functions of `processors` here
pub set_processors : List Processor → Reconciler → Reconciler
set_processors ps rec = record rec { processors = ps }
