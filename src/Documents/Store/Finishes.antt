-- ===== src/Documents/Store/Finishes.antt =====
-- What `activate` and `fail` do to a document that is processing: core/doktok_core/documents/inmemory.py.
use doktok_ng.Prelude.{
  ℕ, ◌≡◌, refl, ◌⊎◌, inl, inr, Bool, true, false, Option, none, some, List, String, Bool-cases,
  dict_get, dict_set, get-set, str_eq, str_eq_self, subst,
}
use doktok_ng.Documents.Document.{Document, is_processing}
use doktok_ng.Documents.Store.{
  Store, Result, returned, duplicate_active, owned_by, in_progress, get, get_found, is_found,
  find_active_by_sha256, activated, activate, activate_found, given_up, fail, fail_found,
}

module _ {V : Type 0} where
  pub get-parts :
      (t id : String) (s : Store V) (d : Document V)
      → get t id s ≡ some d
      → (dict_get s.docs id ≡ some d) × (owned_by t d ≡ true)
  unfolding get get_found
  get-parts t id s d h = go (dict_get s.docs id) refl
    where
      go :
          (o : Option (Document V))
          → dict_get s.docs id ≡ o
          → (dict_get s.docs id ≡ some d) × (owned_by t d ≡ true)
      go none e = let h' : none ≡ some d = rw e at h in absurd (cc)
      go (some d') e = elim (Bool-cases (owned_by t d')) [
        | inl own ↦
            let h' : some d' ≡ some d = rw own at (rw e at h) in
            let same : d' ≡ d = cc in
            subst (λ x. (dict_get s.docs id ≡ some x) × (owned_by t x ≡ true)) same (e, own)
        | inr other ↦ let h' : none ≡ some d = rw other at (rw e at h) in absurd (cc)
      ]

  pub activate-cases :
      (now : ℕ) (t id path : String) (metadata : List (String × V)) (s : Store V) (d : Document V)
      → get t id s ≡ some d
      → is_processing d.status ≡ true
      → (◌≡◌ {A = Store V × Result Bool}
          (activate now t id path metadata s)
          (record s { docs = dict_set s.docs id (activated now path metadata d) }, returned true))
        ⊎ ((◌≡◌ {A = Store V × Result Bool}
              (activate now t id path metadata s)
              (s, duplicate_active))
            × (is_found (find_active_by_sha256 t d.sha256 s) ≡ true))
  unfolding activate activate_found
  activate-cases now t id path metadata s d h going =
      let (here, own) = get-parts t id s d h in
      rw here (
        rw own (
          rw going (elim (Bool-cases (is_found (find_active_by_sha256 t d.sha256 s))) [
            | inl twin ↦ rw twin (inr (refl, refl))
            | inr free ↦ rw free (inl refl)
          ])))

  pub fail-processing :
      (text : String → V) (t id code message : String) (s : Store V) (d : Document V)
      → dict_get s.docs id ≡ some d
      → owned_by t d ≡ true
      → is_processing d.status ≡ true
      → ◌≡◌ {A = Store V × Bool}
          (fail text t id code message s)
          (record s { docs = dict_set s.docs id (given_up text code message d) }, true)
  unfolding fail fail_found
  fail-processing text t id code message s d here own going = rw here (rw own (rw going refl))

  -- A document that is written at its id is read there by its tenant.
  pub get-set_document :
      (t id : String) (s : Store V) (d : Document V)
      → owned_by t d ≡ true
      → get t id (record s { docs = dict_set s.docs id d }) ≡ some d
  unfolding get get_found
  get-set_document t id s d own = rw (get-set s.docs id id d) (rw (str_eq_self id) (rw own refl))

  -- `fail` leaves the documents at other ids,
  pub fail-other :
      (text : String → V) (t k id code message : String) (s : Store V)
      → str_eq k id ≡ false
      → dict_get (fail text t k code message s).0.docs id ≡ dict_get s.docs id
  unfolding fail fail_found
  fail-other text t k id code message s apart = go (dict_get s.docs k)
    where
      go :
          (o : Option (Document V))
          → dict_get (fail_found text t k code message o s).0.docs id ≡ dict_get s.docs id
      go none = refl
      go (some d) = elim (Bool-cases (in_progress t d)) [
        | inl e ↦ rw e (rw (get-set s.docs k id (given_up text code message d)) (rw apart refl))
        | inr e ↦ rw e refl
      ]

  -- and those that are not processing.
  pub fail_finished :
      (text : String → V) (t id code message : String) (s : Store V) (d : Document V)
      → dict_get s.docs id ≡ some d
      → in_progress t d ≡ false
      → dict_get (fail text t id code message s).0.docs id ≡ some d
  unfolding fail fail_found
  fail_finished text t id code message s d h over = rw h (rw over h)
