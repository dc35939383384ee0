-- ===== src/Documents/Store/Follows.antt =====
-- How the calls change a document: core/doktok_core/documents/inmemory.py.
use doktok_ng.Prelude.{
  ℕ, ◌≡◌, refl, inl, inr, Bool, true, false, Option, none, some, List, String, str_eq, arith,
  eq_iff, dict_get, dict_set, Bool-cases, get-set, get-delete, ◌∙◌, ap, subst,
}
use doktok_ng.Documents.Document.{Document, is_processing}
use doktok_ng.Documents.Store.{
  Store, is_found, find_active_by_sha256, has_twin, owned_by, add, add_found, change, change_found,
  with_metadata, renamed, assessed, activated, activate, activate_found, given_up, fail, fail_found,
  delete, delete_found, set_metadata, set_title, clear_manual_title, set_unidentifiable,
  in_progress,
}

module _ {V : Type 0} where
  -- The owner and the content stay, a status that is not processing is final, and a title that a
  -- user has set stays.
  pub record Follows (d e : Document V) : Type 0 where
    pub owner : e.tenant_id ≡ d.tenant_id
    pub content : e.sha256 ≡ d.sha256
    pub final : is_processing d.status ≡ false → e.status ≡ d.status
    pub source : str_eq d.title_source "manual" ≡ true → e.title_source ≡ d.title_source
    pub title : str_eq d.title_source "manual" ≡ true → e.title ≡ d.title

  pub Follows-refl : (d : Document V) → Follows d d
  Follows-refl d = record {
    owner = refl;
    content = refl;
    final = λ h. refl;
    source = λ h. refl;
    title = λ h. refl;
  }

  pub Follows-trans : (c d e : Document V) → Follows c d → Follows d e → Follows c e
  Follows-trans c d e h l = record {
    owner = l.owner ∙ h.owner;
    content = l.content ∙ h.content;
    final = λ f. l.final (ap is_processing (h.final f) ∙ f) ∙ h.final f;
    source = λ m. l.source (ap (λ s. str_eq s "manual") (h.source m) ∙ m) ∙ h.source m;
    title = λ m. l.title (ap (λ s. str_eq s "manual") (h.source m) ∙ m) ∙ h.title m;
  }

  -- The document of the id is there, and follows the one that was.
  pub record Kept (id : String) (d : Document V) (s : Store V) : Type 0 where
    pub document : Document V
    pub at : dict_get s.docs id ≡ some document
    pub follows : Follows d document

  -- An entry that is replaced by one that follows it.
  replaced :
      (s : Store V) (j id : String) (d e x : Document V)
      → dict_get s.docs j ≡ some d
      → dict_get s.docs id ≡ some x
      → (str_eq j id ≡ true → Follows d e)
      → Kept id x (record s { docs = dict_set s.docs j e })
  replaced s j id d e x at there h = elim (Bool-cases (str_eq j id)) [
    | inl same ↦ record {
      document = e;
      at = ground (arith, get-set s.docs j id e, same);
      follows =
          let eq = (eq_iff j id).0 same in
          let old : d ≡ x = cc in subst (λ (y : Document V). Follows y e) old (h same);
    }
    | inr other ↦ record {
      document = x;
      at = ground (arith, get-set s.docs j id e, other, there);
      follows = Follows-refl x;
    }
  ]

  change-Kept :
      (f : Document V → Document V) (t j id : String) (x : Document V) (s : Store V)
      → ((d : Document V) → str_eq j id ≡ true → Follows d (f d))
      → dict_get s.docs id ≡ some x
      → Kept id x (change f t j s)
  unfolding change change_found
  change-Kept f t j id x s h there = go (dict_get s.docs j) refl
    where
      go : (o : Option (Document V)) → dict_get s.docs j ≡ o → Kept id x (change_found f t j o s)
      go none e = record { document = x; at = there; follows = Follows-refl x }
      go (some d) e = elim (Bool-cases (owned_by t d)) [
        | inl own ↦ rw own (replaced s j id d (f d) x e there (h d))
        | inr other ↦ rw other (record { document = x; at = there; follows = Follows-refl x })
      ]

  -- Overwriting the document of an id by one that follows it, or leaving all as it is.
  unchanged :
      (id : String) (x : Document V) (s : Store V) → dict_get s.docs id ≡ some x → Kept id x s
  unchanged id x s there = record { document = x; at = there; follows = Follows-refl x }

  pub add-Kept :
      (d : Document V) (id : String) (x : Document V) (s : Store V)
      → dict_get s.docs id ≡ some x
      → Kept id x (add d s).0
  unfolding add add_found
  add-Kept d id x s there = go (dict_get s.docs d.id) refl
    where
      go : (o : Option (Document V)) → dict_get s.docs d.id ≡ o → Kept id x (add_found d o s).0
      go (some old) e = unchanged id x s there
      go none e = elim (Bool-cases (has_twin d s)) [
        | inl twin ↦ rw twin (unchanged id x s there)
        | inr free ↦ rw free (record {
          document = x;
          at = ground (arith, get-set s.docs d.id id d, eq_iff d.id id, e, there);
          follows = Follows-refl x;
        })
      ]

  pub activate-Kept :
      (now : ℕ) (t j path : String) (metadata : List (String × V)) (id : String) (x : Document V)
      (s : Store V)
      → dict_get s.docs id ≡ some x
      → Kept id x (activate now t j path metadata s).0
  unfolding activate activate_found
  activate-Kept now t j path metadata id x s there = go (dict_get s.docs j) refl
    where
      go :
          (o : Option (Document V))
          → dict_get s.docs j ≡ o
          → Kept id x (activate_found now t j path metadata o s).0
      go none e = unchanged id x s there
      go (some d) e = elim (Bool-cases (in_progress t d)) [
        | inr cannot ↦ rw cannot (unchanged id x s there)
        | inl can ↦ elim (Bool-cases (is_found (find_active_by_sha256 t d.sha256 s))) [
          | inl twin ↦ rw can (rw twin (unchanged id x s there))
          | inr free ↦ rw can (
              rw free (
                replaced s j id d (activated now path metadata d) x e there (λ same. record {
                  owner = refl;
                  content = refl;
                  final = λ f. absurd (ground arith);
                  source = λ m. refl;
                  title = λ m. refl;
                })))
        ]
      ]

  pub fail-Kept :
      (text : String → V) (t j code message id : String) (x : Document V) (s : Store V)
      → dict_get s.docs id ≡ some x
      → Kept id x (fail text t j code message s).0
  unfolding fail fail_found
  fail-Kept text t j code message id x s there = go (dict_get s.docs j) refl
    where
      go :
          (o : Option (Document V))
          → dict_get s.docs j ≡ o
          → Kept id x (fail_found text t j code message o s).0
      go none e = unchanged id x s there
      go (some d) e = elim (Bool-cases (in_progress t d)) [
        | inr cannot ↦ rw cannot (unchanged id x s there)
        | inl can ↦ rw can (
            replaced s j id d (given_up text code message d) x e there (λ same. record {
              owner = refl;
              content = refl;
              final = λ f. absurd (ground arith);
              source = λ m. refl;
              title = λ m. refl;
            }))
      ]

  pub delete-Kept :
      (t j id : String) (x : Document V) (s : Store V)
      → str_eq j id ≡ false
      → dict_get s.docs id ≡ some x
      → Kept id x (delete t j s)
  unfolding delete delete_found
  delete-Kept t j id x s ne there = go (dict_get s.docs j) refl
    where
      go : (o : Option (Document V)) → dict_get s.docs j ≡ o → Kept id x (delete_found t j o s)
      go none e = unchanged id x s there
      go (some d) e = elim (Bool-cases (owned_by t d)) [
        | inr other ↦ rw other (unchanged id x s there)
        | inl own ↦ rw own (record {
          document = x;
          at = get-delete s.docs j id ne ∙ there;
          follows = Follows-refl x;
        })
      ]

  pub set_metadata-Kept :
      (t j : String) (title : Option String) (date : Option ℕ) (location summary : Option String)
      (id : String) (x : Document V) (s : Store V)
      → dict_get s.docs id ≡ some x
      → Kept id x (set_metadata t j title date location summary s)
  unfolding set_metadata
  set_metadata-Kept t j title date location summary id x s there =
      change-Kept (with_metadata title date location summary) t j id x s
        (λ d same. record {
          owner = refl;
          content = refl;
          final = λ f. refl;
          source = λ m. refl;
          title = keeps_title d title;
        })
        there
    where
      keeps_title :
          (d : Document V) (o : Option String)
          → str_eq d.title_source "manual" ≡ true
          → (with_metadata o date location summary d).title ≡ d.title
      keeps_title d none m = refl
      keeps_title d (some new) m = rw m refl

  pub set_title-Kept :
      (t j title id : String) (x : Document V) (s : Store V)
      → str_eq j id ≡ false
      → dict_get s.docs id ≡ some x
      → Kept id x (set_title t j title s)
  unfolding set_title
  set_title-Kept t j title id x s ne there =
      change-Kept (renamed title) t j id x s (λ d same. absurd (cc)) there

  pub clear_manual_title-Kept :
      (t j id : String) (x : Document V) (s : Store V)
      → str_eq j id ≡ false
      → dict_get s.docs id ≡ some x
      → Kept id x (clear_manual_title t j s)
  unfolding clear_manual_title
  clear_manual_title-Kept t j id x s ne there =
      change-Kept (λ d. record d { title_source = "auto" }) t j id x s (λ d same. absurd (cc)) there

  pub set_unidentifiable-Kept :
      (t j : String) (value : Option Bool) (id : String) (x : Document V) (s : Store V)
      → dict_get s.docs id ≡ some x
      → Kept id x (set_unidentifiable t j value s)
  unfolding set_unidentifiable
  set_unidentifiable-Kept t j value id x s there =
      change-Kept (assessed value) t j id x s
        (λ d same. record {
          owner = refl;
          content = refl;
          final = λ f. refl;
          source = λ m. refl;
          title = λ m. refl;
        })
        there
