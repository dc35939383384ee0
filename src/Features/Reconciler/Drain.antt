-- ===== src/Features/Reconciler/Drain.antt =====
-- The sequential drain of one tenant: its bound, what it leaves running, and when it stops.
use Prim.Native.String.{◌++◌ as str_append}
use doktok_ng.Prelude.{
  ℕ, zero, suc, ◌+◌, ◌-◌, ◌≤◌, ◌<◌, ◌≡◌, refl, sym, ap, subst, true, false, Option, none, some,
  String, arith, str_eq_self, All, count-update_lt,
}
use doktok_ng.Features.Row.{DocumentFeature, FeatureMetrics}
use doktok_ng.Features.Ledger.{
  Ledger, has_id, complete, fail_with, mark_done, mark_failed, tenant_running,
}
use doktok_ng.Features.Claim.{in_tenant, claimable}
use doktok_ng.Features.Claim.Result.{claim_next-none}
use doktok_ng.Features.Claim.Running.{
  running_total, Holds, claim_next-Holds, claim_next-starts_none,
}
use doktok_ng.Features.Reconciler.{
  Environment, Reconciler, Outcome, completed, raised, Processor, World, find_processor, lanes_of,
  EventType, feature_completed, feature_failed, metrics_of, take_text, record_event, claim, backoff,
  finish, process_with, process, drain_found, drain,
}

module _ (t : String) (s : Ledger) (x : DocumentFeature) (h : Holds t s x) where
  mark_done-closes :
      (now version : ℕ) (metrics : Option FeatureMetrics)
      → running_total t (mark_done now x.id version metrics s) + 1 ≤ running_total t s
  unfolding mark_done
  mark_done-closes now version metrics =
      count-update_lt (tenant_running t) (has_id x.id) (complete now version metrics) s.rows h.place
        x (λ y. ground arith) h.placed h.runs (str_eq_self x.id)

  mark_failed-closes :
      (error : String) (next : ℕ)
      → running_total t (mark_failed x.id error next s) + 1 ≤ running_total t s
  unfolding mark_failed
  mark_failed-closes error next =
      count-update_lt (tenant_running t) (has_id x.id) (fail_with error next) s.rows h.place x
        (λ y. ground arith) h.placed h.runs (str_eq_self x.id)

module _ (env : Environment) (rec : Reconciler) (t : String) where
  ledger-record_event :
      (event : EventType) (row : DocumentFeature) (severity description : String) (w : World)
      → (record_event env rec t event row severity description w).ledger ≡ w.ledger
  ledger-record_event event row severity description w = ground arith

  process_with-closes :
      (o : Option Processor) (x : DocumentFeature) (w : World)
      → Holds t w.ledger x
      → running_total t (process_with env rec o t x w).ledger + 1 ≤ running_total t w.ledger
  unfolding process_with finish
  process_with-closes none x w h =
      mark_done-closes t w.ledger x h (env.stamp w.ticks) x.feature_version none
  process_with-closes (some p) x w h = go (env.outcome w.runs)
    where
      go :
          (o : Outcome)
          → running_total t (finish env rec t x p o w).ledger + 1 ≤ running_total t w.ledger
      go (completed usage) =
          let metrics = metrics_of p (env.elapsed_ms w.runs) usage in
          let marked = mark_done (env.stamp w.ticks) x.id p.version (some metrics) w.ledger in
          subst (λ l. running_total t l + 1 ≤ running_total t w.ledger)
            (sym (
              ledger-record_event (feature_completed metrics) x "info"
                (str_append x.feature " completed")
                (record w { ledger = marked; runs = w.runs + 1 })))
            (mark_done-closes t w.ledger x h (env.stamp w.ticks) p.version (some metrics))
      go (raised error) =
          let next = env.clock w.ticks + backoff env rec x.attempts in
          subst (λ l. running_total t l + 1 ≤ running_total t w.ledger)
            (sym (
              ledger-record_event (feature_failed error x.attempts) x "error"
                (take_text 240 (str_append x.feature (str_append " failed: " error)))
                (record w {
                  ledger = mark_failed x.id error next w.ledger;
                  ticks = w.ticks + 1;
                  runs = w.runs + 1;
                })))
            (mark_failed-closes t w.ledger x h error next)

  claim-some :
      (w w' : World) (x : DocumentFeature)
      → claim env rec t w ≡ (w', some x)
      → Holds t w'.ledger x × (running_total t w'.ledger ≤ running_total t w.ledger + 1)
  unfolding claim
  claim-some w w' x e =
      let now = env.clock w.ticks in
      claim_next-Holds (lanes_of rec) now (now - rec.lease) t w.ledger w'.ledger x
        (ap (λ (p : World × Option DocumentFeature). (p.0.ledger, p.1)) e)

  claim-none :
      (w w' : World)
      → claim env rec t w ≡ (w', none)
      → running_total t w'.ledger ≤ running_total t w.ledger
  unfolding claim
  claim-none w w' e =
      let now = env.clock w.ticks in
      claim_next-starts_none (lanes_of rec) now (now - rec.lease) t w.ledger w'.ledger
        (ap (λ (p : World × Option DocumentFeature). (p.0.ledger, p.1)) e)

  -- One round of the loop, by what the claim found.
  drain_found-running :
      (rest : World → World × ℕ) (w w' : World) (found : Option DocumentFeature)
      → claim env rec t w ≡ (w', found)
      → ((v : World) → running_total t (rest v).0.ledger ≤ running_total t v.ledger)
      → running_total t (drain_found env rec rest t w' found).0.ledger ≤ running_total t w.ledger
  unfolding drain_found process
  drain_found-running rest w w' none e ih = claim-none w w' e
  drain_found-running rest w w' (some x) e ih =
      let held = claim-some w w' x e in
      omega (
        arith,
        held.1,
        process_with-closes (find_processor x.feature rec.processors) x w' held.0,
        ih (process env rec t x w'),
      )

  -- A drain, whatever the processors return or raise, leaves no more running rows of the tenant
  -- than it found.
  pub drain-running :
      (n : ℕ) (w : World)
      → running_total t (drain env rec n t w).0.ledger ≤ running_total t w.ledger
  unfolding drain
  drain-running zero w = omega arith
  drain-running (suc n) w =
      drain_found-running (drain env rec n t) w (claim env rec t w).0 (claim env rec t w).1 refl
        (drain-running n)

  drain_found-le :
      (rest : World → World × ℕ) (n : ℕ) (w : World) (found : Option DocumentFeature)
      → ((v : World) → (rest v).1 ≤ n)
      → (drain_found env rec rest t w found).1 ≤ suc n
  unfolding drain_found
  drain_found-le rest n w none ih = omega arith
  drain_found-le rest n w (some x) ih = omega (arith, ih (process env rec t x w))

  -- A pass runs at most `n` features of a tenant.
  pub drain-le : (n : ℕ) (w : World) → (drain env rec n t w).1 ≤ n
  unfolding drain
  drain-le zero w = omega arith
  drain-le (suc n) w =
      drain_found-le (drain env rec n t) n (claim env rec t w).0 (claim env rec t w).1 (drain-le n)

  -- Nothing of the tenant is claimable, by the last reading of the clock.
  pub record IsDrained (w : World) : Type 0 where
    pub tick : ℕ
    pub last : w.ticks ≡ tick + 1
    pub nothing :
        All
          (λ r.
            in_tenant t r ≡ true
            → claimable
                (lanes_of rec)
                (env.clock tick)
                (env.clock tick - rec.lease)
                w.ledger.rows
                t
                r
              ≡ false)
          w.ledger.rows

  claim-none-IsDrained : (w w' : World) → claim env rec t w ≡ (w', none) → IsDrained w'
  unfolding claim
  claim-none-IsDrained w w' e =
      let now = env.clock w.ticks in
      record {
        tick = w.ticks;
        last = sym (ap (λ (p : World × Option DocumentFeature). p.0.ticks) e);
        nothing =
            (claim_next-none (lanes_of rec) now (now - rec.lease) t w.ledger w'.ledger
              (ap (λ (p : World × Option DocumentFeature). (p.0.ledger, p.1)) e)).1;
      }

  drain_found-IsDrained :
      (rest : World → World × ℕ) (n : ℕ) (w w' : World) (found : Option DocumentFeature)
      → claim env rec t w ≡ (w', found)
      → ((v : World) → (rest v).1 < n → IsDrained (rest v).0)
      → (drain_found env rec rest t w' found).1 < suc n
      → IsDrained (drain_found env rec rest t w' found).0
  unfolding drain_found
  drain_found-IsDrained rest n w w' none e ih h = claim-none-IsDrained w w' e
  drain_found-IsDrained rest n w w' (some x) e ih h = ih (process env rec t x w') (omega arith)

  -- A drain that runs fewer features than it may stops only because no row of the tenant is
  -- claimable any more.
  pub drain-IsDrained :
      (n : ℕ) (w : World) → (drain env rec n t w).1 < n → IsDrained (drain env rec n t w).0
  unfolding drain
  drain-IsDrained zero w h = absurd (omega arith)
  drain-IsDrained (suc n) w h =
      drain_found-IsDrained (drain env rec n t) n w (claim env rec t w).0 (claim env rec t w).1 refl
        (drain-IsDrained n) h
