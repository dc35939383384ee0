-- ===== src/Documents/Store/Copies.antt =====
-- The active documents of one tenant and one content: core/doktok_core/documents/inmemory.py.
use doktok_ng.Prelude.{
  ℕ, ◌≤◌, ◌≡◌, refl, inl, inr, Bool, true, false, not, Option, none, some, List, String, str_eq,
  arith, All, count, find_first, dict_get, dict_set, dict_values, Bool-cases, eq_iff, All-get,
  All-values-set, All-values-delete, All-find_first, count-values-set, count-values-set_new,
  count-values-delete, count-find_first-none,
}
use doktok_ng.Documents.Document.{Document}
use doktok_ng.Documents.Store.{
  Store, is_copy, id_of, is_found, find_active_by_sha256, has_twin, owned_by, add, add_found,
  change, change_found, with_metadata, renamed, assessed, activated, activate, activate_found,
  given_up, fail, fail_found, delete, delete_found, set_metadata, set_title, clear_manual_title,
  set_unidentifiable, in_progress,
}

module _ {V : Type 0} where
  -- A document has an id that is not empty.
  abbrev pub has_name : Document V → Bool
  has_name d = not (str_eq d.id "")

  pub record HasOneCopy (s : Store V) : Type 0 where
    pub copies : (t sha : String) → count (is_copy t sha) (dict_values s.docs) ≤ 1
    pub named : All (λ d. has_name d ≡ true) (dict_values s.docs)

  -- No document is found only where none is there.
  found-none :
      (t sha : String) (s : Store V)
      → All (λ d. has_name d ≡ true) (dict_values s.docs)
      → is_found (find_active_by_sha256 t sha s) ≡ false
      → count (is_copy t sha) (dict_values s.docs) ≡ 0
  unfolding find_active_by_sha256
  found-none t sha s named h = go (find_first (is_copy t sha) (dict_values s.docs)) refl h
    where
      go :
          (o : Option (Document V))
          → find_first (is_copy t sha) (dict_values s.docs) ≡ o
          → is_found (id_of o) ≡ false
          → count (is_copy t sha) (dict_values s.docs) ≡ 0
      go none e h' = count-find_first-none (is_copy t sha) (dict_values s.docs) e
      go (some d) e h' =
          let name =
            All-find_first (λ d. has_name d ≡ true) (is_copy t sha) (dict_values s.docs) d named
              e in
          absurd (ground (arith, name, h'))

  -- A document that is no new copy can take the place of one.
  replace :
      (s : Store V) (id : String) (d e : Document V)
      → dict_get s.docs id ≡ some d
      → e.id ≡ d.id
      → ((t sha : String) → is_copy t sha e ≡ true → is_copy t sha d ≡ true)
      → HasOneCopy s
      → HasOneCopy (record s { docs = dict_set s.docs id e })
  replace s id d e at name keeps h = record {
    copies = λ t sha. ground (
      arith,
      count-values-set (is_copy t sha) s.docs id e d at,
      h.copies t sha,
      keeps t sha,
      Bool-cases (is_copy t sha e),
    );
    named =
        let old = All-get (λ d. has_name d ≡ true) s.docs id d h.named at in
        All-values-set (λ d. has_name d ≡ true) s.docs id e h.named (ground (arith, old, name));
  }

  change-HasOneCopy :
      (f : Document V → Document V) (t id : String) (s : Store V)
      → ((d : Document V) → (f d).id ≡ d.id)
      → ((d : Document V) (t' sha : String) → is_copy t' sha (f d) ≡ is_copy t' sha d)
      → HasOneCopy s
      → HasOneCopy (change f t id s)
  unfolding change change_found
  change-HasOneCopy f t id s name same h = go (dict_get s.docs id) refl
    where
      go : (o : Option (Document V)) → dict_get s.docs id ≡ o → HasOneCopy (change_found f t id o s)
      go none e = h
      go (some d) e = elim (Bool-cases (owned_by t d)) [
        | inl own ↦
            rw own
              (replace s id d (f d) e (name d) (λ t' sha c. ground (arith, same d t' sha, c)) h)
        | inr other ↦ rw other h
      ]

  pub add-HasOneCopy :
      (d : Document V) (s : Store V) → has_name d ≡ true → HasOneCopy s → HasOneCopy (add d s).0
  unfolding add add_found
  add-HasOneCopy d s name h = go (dict_get s.docs d.id) refl
    where
      go : (o : Option (Document V)) → dict_get s.docs d.id ≡ o → HasOneCopy (add_found d o s).0
      go (some old) e = h
      go none e = elim (Bool-cases (has_twin d s)) [
        | inl twin ↦ rw twin h
        | inr free ↦ rw free (record {
          copies = λ t sha. ground (
            arith,
            count-values-set_new (is_copy t sha) s.docs d.id d e,
            h.copies t sha,
            found-none d.tenant_id d.sha256 s h.named,
            free,
            eq_iff d.tenant_id t,
            eq_iff d.sha256 sha,
          );
          named = All-values-set (λ d. has_name d ≡ true) s.docs d.id d h.named name;
        })
      ]

  pub activate-HasOneCopy :
      (now : ℕ) (t id path : String) (metadata : List (String × V)) (s : Store V)
      → HasOneCopy s
      → HasOneCopy (activate now t id path metadata s).0
  unfolding activate activate_found
  activate-HasOneCopy now t id path metadata s h = go (dict_get s.docs id) refl
    where
      go :
          (o : Option (Document V))
          → dict_get s.docs id ≡ o
          → HasOneCopy (activate_found now t id path metadata o s).0
      go none e = h
      go (some d) e = elim (Bool-cases (in_progress t d)) [
        | inr cannot ↦ rw cannot h
        | inl can ↦ elim (Bool-cases (is_found (find_active_by_sha256 t d.sha256 s))) [
          | inl twin ↦ rw can (rw twin h)
          | inr free ↦ rw can (
              rw free (record {
                copies = λ t' sha. ground (
                  arith,
                  count-values-set (is_copy t' sha) s.docs id (activated now path metadata d) d e,
                  h.copies t' sha,
                  found-none t d.sha256 s h.named free,
                  can,
                  eq_iff d.tenant_id t,
                  eq_iff d.tenant_id t',
                  eq_iff d.sha256 sha,
                );
                named =
                    All-values-set (λ d. has_name d ≡ true) s.docs id
                      (activated now path metadata d) h.named
                      (All-get (λ d. has_name d ≡ true) s.docs id d h.named e);
              }))
        ]
      ]

  pub fail-HasOneCopy :
      (text : String → V) (t id code message : String) (s : Store V)
      → HasOneCopy s
      → HasOneCopy (fail text t id code message s).0
  unfolding fail fail_found
  fail-HasOneCopy text t id code message s h = go (dict_get s.docs id) refl
    where
      go :
          (o : Option (Document V))
          → dict_get s.docs id ≡ o
          → HasOneCopy (fail_found text t id code message o s).0
      go none e = h
      go (some d) e = elim (Bool-cases (in_progress t d)) [
        | inr cannot ↦ rw cannot h
        | inl can ↦
            rw can
              (replace s id d (given_up text code message d) e refl (λ t' sha c. ground arith) h)
      ]

  pub delete-HasOneCopy : (t id : String) (s : Store V) → HasOneCopy s → HasOneCopy (delete t id s)
  unfolding delete delete_found
  delete-HasOneCopy t id s h = go (dict_get s.docs id) refl
    where
      go : (o : Option (Document V)) → dict_get s.docs id ≡ o → HasOneCopy (delete_found t id o s)
      go none e = h
      go (some d) e = elim (Bool-cases (owned_by t d)) [
        | inr cannot ↦ rw cannot h
        | inl can ↦ rw can (record {
          copies = λ t' sha.
              omega (arith, count-values-delete (is_copy t' sha) s.docs id, h.copies t' sha);
          named = All-values-delete (λ d. has_name d ≡ true) s.docs id h.named;
        })
      ]

  pub set_metadata-HasOneCopy :
      (t id : String) (title : Option String) (date : Option ℕ) (location summary : Option String)
      (s : Store V)
      → HasOneCopy s
      → HasOneCopy (set_metadata t id title date location summary s)
  unfolding set_metadata
  set_metadata-HasOneCopy t id title date location summary s h =
      change-HasOneCopy (with_metadata title date location summary) t id s (λ d. refl)
        (λ d t' sha. refl) h

  pub set_title-HasOneCopy :
      (t id title : String) (s : Store V) → HasOneCopy s → HasOneCopy (set_title t id title s)
  unfolding set_title
  set_title-HasOneCopy t id title s h =
      change-HasOneCopy (renamed title) t id s (λ d. refl) (λ d t' sha. refl) h

  pub clear_manual_title-HasOneCopy :
      (t id : String) (s : Store V) → HasOneCopy s → HasOneCopy (clear_manual_title t id s)
  unfolding clear_manual_title
  clear_manual_title-HasOneCopy t id s h =
      change-HasOneCopy (λ d. record d { title_source = "auto" }) t id s (λ d. refl)
        (λ d t' sha. refl) h

  pub set_unidentifiable-HasOneCopy :
      (t id : String) (value : Option Bool) (s : Store V)
      → HasOneCopy s
      → HasOneCopy (set_unidentifiable t id value s)
  unfolding set_unidentifiable
  set_unidentifiable-HasOneCopy t id value s h =
      change-HasOneCopy (assessed value) t id s (λ d. refl) (λ d t' sha. refl) h
