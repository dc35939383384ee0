-- ===== src/Jobs/Tenants.antt =====
-- The calls of one tenant and the jobs of others: core/doktok_core/ingestion/inmemory.py.
use doktok_ng.Prelude.{
  ◌≡◌, refl, inl, inr, true, false, Option, none, some, List, [], ◌∷◌, String, str_eq, arith,
  eq_iff, All, All-map, dict_get, dict_set, dict_delete, get-set, get-delete, Bool-cases, ◌∙◌,
  IsDict,
}
use doktok_ng.Jobs.{
  IngestionJob, JobRepository, of_tenant, of_document, add, add_found, update, update_found,
  victims, delete_all, delete_for_document, delete, delete_found,
}

module _ {P V : Type 0} where
  All-keys-set :
      (k j : String) (s : JobRepository P V) (job : IngestionJob P V)
      → str_eq j k ≡ false
      → All (λ e. str_eq e.0 k ≡ false) s
      → All (λ e. str_eq e.0 k ≡ false) (dict_set s j job)
  All-keys-set k j [] job ne h = (ne, tt)
  All-keys-set k j ((i, x) ∷ s) job ne h = elim (Bool-cases (str_eq i j)) [
    | inl e ↦ rw e h
    | inr e ↦ rw e (h.0, All-keys-set k j s job ne h.1)
  ]

  set-IsDict :
      (s : JobRepository P V) (j : String) (job : IngestionJob P V)
      → IsDict s
      → IsDict (dict_set s j job)
  set-IsDict [] j job h = (tt, tt)
  set-IsDict ((i, x) ∷ s) j job h = elim (Bool-cases (str_eq i j)) [
    | inl e ↦ rw e h
    | inr e ↦ rw e (
      All-keys-set i j s job (ground (arith, e, eq_iff i j, eq_iff j i)) h.0,
      set-IsDict s j job h.1,
    )
  ]

  All-keys-delete :
      (k j : String) (s : JobRepository P V)
      → All (λ e. str_eq e.0 k ≡ false) s
      → All (λ e. str_eq e.0 k ≡ false) (dict_delete s j)
  All-keys-delete k j [] h = tt
  All-keys-delete k j ((i, x) ∷ s) h = elim (Bool-cases (str_eq i j)) [
    | inl e ↦ rw e h.1
    | inr e ↦ rw e (h.0, All-keys-delete k j s h.1)
  ]

  delete-IsDict : (s : JobRepository P V) (j : String) → IsDict s → IsDict (dict_delete s j)
  delete-IsDict [] j h = tt
  delete-IsDict ((i, x) ∷ s) j h = elim (Bool-cases (str_eq i j)) [
    | inl e ↦ rw e h.1
    | inr e ↦ rw e (All-keys-delete i j s h.0, delete-IsDict s j h.1)
  ]

  -- Ids that no entry has are not among the victims.
  victims-absent :
      (t d id : String) (s : JobRepository P V)
      → All (λ e. str_eq e.0 id ≡ false) s
      → All (λ v. str_eq v id ≡ false) (victims t d s)
  victims-absent t d id [] h = tt
  victims-absent t d id ((k, job) ∷ s) h = elim (Bool-cases (of_document t d job)) [
    | inl e ↦ rw e (h.0, victims-absent t d id s h.1)
    | inr e ↦ rw e (victims-absent t d id s h.1)
  ]

  victims-others :
      (t d id : String) (x : IngestionJob P V) (s : JobRepository P V)
      → IsDict s
      → dict_get s id ≡ some x
      → of_tenant t x ≡ false
      → All (λ v. str_eq v id ≡ false) (victims t d s)
  victims-others t d id x [] h found other = absurd (cc)
  victims-others t d id x ((k, job) ∷ s) h found other = elim (Bool-cases (str_eq k id)) [
    | inl e ↦
        let found' : some job ≡ some x = rw e at found in
        let same : job ≡ x = cc in
        let not_his : of_document t d job ≡ false = ground (arith, same, other) in
        let key = (eq_iff k id).0 e in
        rw not_his (
          victims-absent t d id s (
            All-map (λ e. str_eq e.0 k ≡ false) (λ e. str_eq e.0 id ≡ false) s
              (λ y q. ground (arith, q, key)) h.0))
    | inr e ↦
        let found' : dict_get s id ≡ some x = rw e at found in
        let ih = victims-others t d id x s h.1 found' other in
        elim (Bool-cases (of_document t d job)) [
          | inl his ↦ rw his (e, ih)
          | inr no_victim ↦ rw no_victim ih
        ]
  ]

  delete_all-get :
      (ids : List String) (id : String) (s : JobRepository P V)
      → All (λ v. str_eq v id ≡ false) ids
      → dict_get (delete_all ids s) id ≡ dict_get s id
  delete_all-get [] id s h = refl
  delete_all-get (j ∷ ids) id s h =
      delete_all-get ids id (dict_delete s j) h.1 ∙ get-delete s j id h.0

  delete_all-IsDict :
      (ids : List String) (s : JobRepository P V) → IsDict s → IsDict (delete_all ids s)
  delete_all-IsDict [] s h = h
  delete_all-IsDict (j ∷ ids) s h = delete_all-IsDict ids (dict_delete s j) (delete-IsDict s j h)

-- The calls that one tenant's ingestion makes.
pub data TenantJobCall (P V : Type 0) (t : String) : Type 0 where
  add_job update_job : (job : IngestionJob P V) → of_tenant t job ≡ true → TenantJobCall P V t
  delete_job delete_jobs_of : String → TenantJobCall P V t

module _ {P V : Type 0} (t : String) where
  pub job_call : TenantJobCall P V t → JobRepository P V → JobRepository P V
  job_call (add_job job own) s = (add job s).0
  job_call (update_job job own) s = (update job s).0
  job_call (delete_job id) s = delete t id s
  job_call (delete_jobs_of d) s = delete_for_document t d s

  pub job_calls : List (TenantJobCall P V t) → JobRepository P V → JobRepository P V
  job_calls [] s = s
  job_calls (c ∷ cs) s = job_calls cs (job_call c s)

  -- The repository has each id once, and the job is at its id.
  pub record Holds (id : String) (x : IngestionJob P V) (s : JobRepository P V) : Type 0 where
    pub keys : IsDict s
    pub at : dict_get s id ≡ some x

  module _ (id : String) (x : IngestionJob P V) (other : of_tenant t x ≡ false) where
    set-Holds :
        (j : String) (job : IngestionJob P V) (s : JobRepository P V)
        → str_eq j id ≡ false
        → Holds id x s
        → Holds id x (dict_set s j job)
    set-Holds j job s ne h = record {
      keys = set-IsDict s j job h.keys;
      at = ground (arith, get-set s j id job, ne, h.at);
    }

    add-Holds :
        (job : IngestionJob P V) (s : JobRepository P V) → Holds id x s → Holds id x (add job s).0
    unfolding add add_found
    add-Holds job s h = go (dict_get s job.id) refl
      where
        go :
            (o : Option (IngestionJob P V))
            → dict_get s job.id ≡ o
            → Holds id x (add_found job o s).0
        go (some old) e = h
        go none e =
            let at = h.at in
            set-Holds job.id job s
              (ground (arith, eq_iff job.id id, e, at, Bool-cases (str_eq job.id id))) h

    update-Holds :
        (job : IngestionJob P V) (s : JobRepository P V)
        → of_tenant t job ≡ true
        → Holds id x s
        → Holds id x (update job s).0
    unfolding update update_found
    update-Holds job s own h = go (dict_get s job.id) refl
      where
        go :
            (o : Option (IngestionJob P V))
            → dict_get s job.id ≡ o
            → Holds id x (update_found job o s).0
        go none e = h
        go (some old) e = elim (Bool-cases (str_eq old.tenant_id job.tenant_id)) [
          | inr moved ↦ rw moved h
          | inl same ↦
              let at = h.at in
              rw same (
                set-Holds job.id job s
                  (ground (
                    arith,
                    eq_iff job.id id,
                    eq_iff old.tenant_id job.tenant_id,
                    e,
                    at,
                    own,
                    other,
                    Bool-cases (str_eq job.id id),
                  ))
                  h)
        ]

    delete-Holds : (j : String) (s : JobRepository P V) → Holds id x s → Holds id x (delete t j s)
    unfolding delete delete_found
    delete-Holds j s h = go (dict_get s j) refl
      where
        go : (o : Option (IngestionJob P V)) → dict_get s j ≡ o → Holds id x (delete_found t j o s)
        go none e = h
        go (some job) e = elim (Bool-cases (of_tenant t job)) [
          | inr no_own ↦ rw no_own h
          | inl own ↦
              let at = h.at in
              let ne : str_eq j id ≡ false =
                ground (arith, eq_iff j id, e, at, own, other, Bool-cases (str_eq j id)) in
              rw own (record { keys = delete-IsDict s j h.keys; at = get-delete s j id ne ∙ h.at })
        ]

    delete_for_document-Holds :
        (d : String) (s : JobRepository P V) → Holds id x s → Holds id x (delete_for_document t d s)
    unfolding delete_for_document
    delete_for_document-Holds d s h = record {
      keys = delete_all-IsDict (victims t d s) s h.keys;
      at = delete_all-get (victims t d s) id s (victims-others t d id x s h.keys h.at other) ∙ h.at;
    }

    job_call-Holds :
        (c : TenantJobCall P V t) (s : JobRepository P V) → Holds id x s → Holds id x (job_call c s)
    unfolding job_call
    job_call-Holds (add_job job own) s h = add-Holds job s h
    job_call-Holds (update_job job own) s h = update-Holds job s own h
    job_call-Holds (delete_job j) s h = delete-Holds j s h
    job_call-Holds (delete_jobs_of d) s h = delete_for_document-Holds d s h

    -- A job of another tenant stays as it is, under its id, whatever jobs of its own a tenant adds,
    -- updates and deletes, also where an id or a document is the other's.
    pub job_calls-other_tenants :
        (cs : List (TenantJobCall P V t)) (s : JobRepository P V)
        → Holds id x s
        → Holds id x (job_calls cs s)
    unfolding job_calls
    job_calls-other_tenants [] s h = h
    job_calls-other_tenants (c ∷ cs) s h =
        job_calls-other_tenants cs (job_call c s) (job_call-Holds c s h)
