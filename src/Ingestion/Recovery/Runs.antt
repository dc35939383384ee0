-- ===== src/Ingestion/Recovery/Runs.antt =====
-- A whole recovery: `recover_stale_jobs` of core/doktok_core/ingestion/pipeline.py.
use doktok_ng.Prelude.{
  ℕ, suc, ◌≡◌, refl, sym, subst, ◌∙◌, String, ap, true, Bool-cases, inl, inr, List, [], ◌∷◌, All,
  All-map, length, some, str_eq→eq, str_eq_self, ◌&&◌, not, arith, keep, dict_get, dict_values,
}
use doktok_ng.Jobs.{is_terminal, of_tenant, started_before, list_in_flight}
use doktok_ng.Ingestion.Services.{Job, Services, Ingest}
use doktok_ng.Ingestion.Outcomes.Accounts.{Registered, Distinct, Fresh}
use doktok_ng.Ingestion.Recovery.{requeue_stale_job, recover_each, recover_stale_jobs}
use doktok_ng.Ingestion.Recovery.Requeues.{
  Ended, Stale, try_requeue-Taken, set-Ended, set-Stale, requeue_stale_job-Ended,
}

module _ {B : Type 0} (svc : Services B) (distinct : Distinct svc) where
  -- The step of the loop.
  abbrev after : Job → Ingest B → Ingest B
  after job s = (requeue_stale_job svc job s).1

  after-Stale :
      (job : Job) (s : Ingest B)
      → Stale svc distinct s job
      → Fresh svc s.drawn s.store.docs
      → (other : Job) → Stale svc distinct s other
      → Stale svc distinct (after job s) other
  unfolding requeue_stale_job
  after-Stale job s (row, owner) fresh other (old, mine) =
      let taken = try_requeue-Taken svc distinct (record s { job = job }) (row, fresh) in
      (
        subst (λ jobs. Registered jobs other.id other.tenant_id) (sym taken.jobs)
            (set-Stale svc distinct s.jobs job.id taken.row other (taken.owner ∙ owner) old mine),
        mine,
      )

  after-Fresh :
      (job : Job) (s : Ingest B)
      → Stale svc distinct s job
      → Fresh svc s.drawn s.store.docs
      → Fresh svc (after job s).drawn (after job s).store.docs
  unfolding requeue_stale_job
  after-Fresh job s (row, owner) fresh =
      let taken = try_requeue-Taken svc distinct (record s { job = job }) (row, fresh) in
      taken.fresh

  after-Ended :
      (job : Job) (s : Ingest B) (id : String)
      → Stale svc distinct s job
      → Fresh svc s.drawn s.store.docs
      → Ended s.jobs svc.tenant_id id
      → Ended (after job s).jobs svc.tenant_id id
  unfolding requeue_stale_job
  after-Ended job s id (row, owner) fresh ended =
      let taken = try_requeue-Taken svc distinct (record s { job = job }) (row, fresh) in
      subst (λ jobs. Ended jobs svc.tenant_id id) (sym taken.jobs)
        (set-Ended svc distinct s.jobs job.id id taken.row (taken.owner ∙ owner) taken.terminal
          ended)

  recover_each-Ended :
      (jobs : List Job) (s : Ingest B) (id : String)
      → All (Stale svc distinct s) jobs
      → Fresh svc s.drawn s.store.docs
      → Ended s.jobs svc.tenant_id id
      → Ended (recover_each svc jobs s).1.jobs svc.tenant_id id
  unfolding recover_each
  recover_each-Ended [] s id stale fresh ended = ended
  recover_each-Ended (job ∷ jobs) s id (first, rest) fresh ended =
      recover_each-Ended jobs (after job s) id
        (All-map (Stale svc distinct s) (Stale svc distinct (after job s)) jobs
          (after-Stale job s first fresh) rest)
        (after-Fresh job s first fresh) (after-Ended job s id first fresh ended)

  recover_each_all :
      (jobs : List Job) (s : Ingest B)
      → All (Stale svc distinct s) jobs
      → Fresh svc s.drawn s.store.docs
      → (length (recover_each svc jobs s).0 ≡ length jobs)
        × All (λ job. Ended (recover_each svc jobs s).1.jobs svc.tenant_id job.id) jobs
  unfolding recover_each
  recover_each_all [] s stale fresh = (refl, tt)
  recover_each_all (job ∷ jobs) s (first, rest) fresh =
      let (done, ended) = requeue_stale_job-Ended svc distinct job s first fresh in
      let rest' =
        All-map (Stale svc distinct s) (Stale svc distinct (after job s)) jobs
          (after-Stale job s first fresh) rest in
      let fresh' = after-Fresh job s first fresh in
      let (lengths, all_ended) = recover_each_all jobs (after job s) rest' fresh' in
      (
        rw done (ap suc lengths),
        (recover_each-Ended jobs (after job s) job.id rest' fresh' ended, all_ended),
      )

  -- The stale jobs of the tenant that are at their ids.
  in_flight-Stale :
      (t : ℕ) (jobs : List Job) (s : Ingest B)
      → All (λ job. of_tenant svc.tenant_id job ≡ true → dict_get s.jobs job.id ≡ some job) jobs
      → All (Stale svc distinct s) (
          keep
            (λ job.
              of_tenant svc.tenant_id job
              && not (is_terminal job.status)
              && started_before job.started_at t)
            jobs)
  in_flight-Stale t [] s filed = tt
  in_flight-Stale t (job ∷ jobs) s (first, rest) =
      let others = in_flight-Stale t jobs s rest in
      let listed =
        of_tenant svc.tenant_id job
        && not (is_terminal job.status)
        && started_before job.started_at t in
      elim (Bool-cases listed) [
        | inl e ↦
            let mine : of_tenant svc.tenant_id job ≡ true = ground (arith, e) in
            rw e (
              (
                record { row = job; at = first mine; same = str_eq_self job.tenant_id },
                str_eq→eq job.tenant_id svc.tenant_id mine,
              ),
              others,
            )
        | inr e ↦ rw e others
      ]

  -- If the ids that are drawn are new and differ, and the tenant's rows are at their ids, a recovery
  -- recovers every job of the tenant that was in flight since before the given time: it returns as
  -- many jobs as there were, and the row of each of them has a terminal status afterwards.
  pub recover_stale_jobs_all :
      (older_than : ℕ) (s : Ingest B)
      → All
          (λ job. of_tenant svc.tenant_id job ≡ true → dict_get s.jobs job.id ≡ some job)
          (dict_values s.jobs)
      → Fresh svc s.drawn s.store.docs
      → (length (recover_stale_jobs svc older_than s).0
          ≡ length (list_in_flight svc.tenant_id older_than s.jobs))
        × All
            (λ job. Ended (recover_stale_jobs svc older_than s).1.jobs svc.tenant_id job.id)
            (list_in_flight svc.tenant_id older_than s.jobs)
  unfolding recover_stale_jobs list_in_flight
  recover_stale_jobs_all older_than s filed fresh =
      recover_each_all (list_in_flight svc.tenant_id older_than s.jobs) s
        (in_flight-Stale older_than (dict_values s.jobs) s filed) fresh
