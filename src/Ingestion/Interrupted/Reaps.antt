-- ===== src/Ingestion/Interrupted/Reaps.antt =====
-- Which documents `fail_interrupted_processing` fails:
-- core/doktok_core/ingestion/pipeline.py.
use doktok_ng.Prelude.{
  ℕ, ◌≡◌, refl, sym, ap, subst, ◌∙◌, inl, inr, Bool, true, false, Bool-cases, ◌&&◌, Option, none,
  some, List, [], ◌∷◌, All, All-keep, All-map, any, keep, String, str_eq, str_eq→eq, ltb, arith,
  dict_get, dict_values,
}
use doktok_ng.Features.Ledger.{Ledger}
use doktok_ng.Documents.Document.{Document, is_processing}
use doktok_ng.Documents.Store.{Store, owned_by, in_progress, given_up, get, list_processing}
use doktok_ng.Documents.Store.Finishes.{get-parts, fail-processing, fail-other, fail_finished}
use doktok_ng.Ingestion.Files.{FilePath}
use doktok_ng.Ingestion.Services.{Value, words, Services, Ingest}
use doktok_ng.Ingestion.Outcomes.Accounts.{get_set_self}
use doktok_ng.Ingestion.Interrupted.{reason, fail_for, fail_each, fail_interrupted_processing}

-- Every document is at its id.
abbrev pub Filed : Store Value → Type 0
Filed s = All (λ (k, d). (d.id ≡ k) × (dict_get s.docs k ≡ some d)) s.docs

module _ {B : Type 0} (svc : Services B) (files : List (FilePath × B)) (ledger : Ledger) where
  fail_for-other :
      (why : Option (String × String)) (k id : String) (s : Store Value)
      → str_eq k id ≡ false
      → dict_get (fail_for svc why k s).0.docs id ≡ dict_get s.docs id
  fail_for-other none k id s apart = refl
  fail_for-other (some (code, message)) k id s apart =
      fail-other words svc.tenant_id k id code message s apart

  -- A document that is not processing stays as it is.
  fail_each-finished :
      (ds : List (Document Value)) (s : Store Value) (id : String) (e : Document Value)
      → dict_get s.docs id ≡ some e
      → in_progress svc.tenant_id e ≡ false
      → dict_get (fail_each svc files ledger ds s).0.docs id ≡ some e
  unfolding fail_each
  fail_each-finished [] s id e h over = h
  fail_each-finished (d ∷ ds) s id e h over =
      fail_each-finished ds (fail_for svc (reason svc files ledger d) d.id s).0 id e
        (go (reason svc files ledger d)) over
    where
      go : (why : Option (String × String)) → dict_get (fail_for svc why d.id s).0.docs id ≡ some e
      go none = h
      go (some (code, message)) = elim (Bool-cases (str_eq d.id id)) [
        | inl same ↦
            let here = str_eq→eq d.id id same in
            rw here (fail_finished words svc.tenant_id id code message s e h over)
        | inr apart ↦ fail-other words svc.tenant_id d.id id code message s apart ∙ h
      ]

  -- A document with no reason to fail stays as it is.
  fail_each-spares :
      (ds : List (Document Value)) (s : Store Value) (id : String) (e : Document Value)
      → All (λ x. str_eq x.id id ≡ true → reason svc files ledger x ≡ none) ds
      → dict_get s.docs id ≡ some e
      → dict_get (fail_each svc files ledger ds s).0.docs id ≡ some e
  unfolding fail_each
  fail_each-spares [] s id e spared h = h
  fail_each-spares (d ∷ ds) s id e (first, rest) h =
      fail_each-spares ds (fail_for svc (reason svc files ledger d) d.id s).0 id e rest
        (elim (Bool-cases (str_eq d.id id)) [
          | inl same ↦ rw (first same) h
          | inr apart ↦ fail_for-other (reason svc files ledger d) d.id id s apart ∙ h
        ])

  -- A document with a reason to fail that is among those looked at fails.
  fail_each-fails :
      (ds : List (Document Value)) (s : Store Value) (id code message : String) (d : Document Value)
      → All (λ x. str_eq x.id id ≡ true → x ≡ d) ds
      → any (λ x. str_eq x.id id) ds ≡ true
      → reason svc files ledger d ≡ some (code, message)
      → dict_get s.docs id ≡ some d
      → owned_by svc.tenant_id d ≡ true
      → is_processing d.status ≡ true
      → dict_get (fail_each svc files ledger ds s).0.docs id ≡ some (given_up words code message d)
  unfolding fail_each
  fail_each-fails [] s id code message d same among why h own going = cc
  fail_each-fails (x ∷ xs) s id code message d (first, rest) among why h own going =
      elim (Bool-cases (str_eq x.id id)) [
        | inl here ↦
            let reasons : reason svc files ledger x ≡ some (code, message) =
              ap (reason svc files ledger) (first here) ∙ why in
            let failed = fail-processing words svc.tenant_id id code message s d h own going in
            let over : in_progress svc.tenant_id (given_up words code message d) ≡ false =
              rw own refl in
            rw reasons (
              rw (str_eq→eq x.id id here) (
                rw failed (
                  fail_each-finished xs _ id (given_up words code message d)
                    (get_set_self s.docs id (given_up words code message d)) over)))
        | inr apart ↦
            let kept = fail_for-other (reason svc files ledger x) x.id id s apart in
            fail_each-fails xs (fail_for svc (reason svc files ledger x) x.id s).0 id code message d
              rest (ground (arith, among, apart)) why (kept ∙ h) own going
      ]

module _ (id : String) (d : Document Value) (docs : List (String × Document Value)) where
  -- No other document has the id.
  filed_same :
      (entries : List (String × Document Value))
      → All (λ (k, x). (x.id ≡ k) × (dict_get docs k ≡ some x)) entries
      → dict_get docs id ≡ some d
      → All (λ x. str_eq x.id id ≡ true → x ≡ d) (dict_values entries)
  filed_same [] filed h = tt
  filed_same ((k, x) ∷ entries) (first, rest) h = (
    λ same.
        let key : k ≡ id = sym first.0 ∙ str_eq→eq x.id id same in
        let found : dict_get docs id ≡ some x = subst (λ i. dict_get docs i ≡ some x) key first.1 in
        cc,
    filed_same entries rest h,
  )

  -- The document is among those that pass a test that it passes.
  filed_among :
      (p : Document Value → Bool) (entries : List (String × Document Value))
      → All (λ (k, x). (x.id ≡ k) × (dict_get docs k ≡ some x)) entries
      → dict_get entries id ≡ some d
      → p d ≡ true
      → any (λ x. str_eq x.id id) (keep p (dict_values entries)) ≡ true
  filed_among p [] filed h passes = cc
  filed_among p ((k, x) ∷ entries) (first, rest) h passes = elim (Bool-cases (str_eq k id)) [
    | inl same ↦
        let h' : some x ≡ some d = rw same at h in
        let this : x ≡ d = cc in
        let mine : str_eq x.id id ≡ true = rw first.0 same in
        let kept : p x ≡ true = ap p this ∙ passes in rw kept (rw mine refl)
    | inr other ↦
        let h' : dict_get entries id ≡ some d = rw other at h in
        let ih = filed_among p entries rest h' passes in
        elim (Bool-cases (p x)) [
          | inl kept ↦ rw kept (ground (arith, ih))
          | inr dropped ↦ rw dropped ih
        ]
  ]

-- What a document becomes that has this reason to fail, or none.
abbrev pub settled : Option (String × String) → Document Value → Document Value
settled none d = d
settled (some (code, message)) d = given_up words code message d

module _ {B : Type 0} (svc : Services B) where
  -- If the documents are at their ids, and one of the tenant has been processing since before the
  -- given time, it fails with its reason if it has one, and else stays as it is.
  pub fail_interrupted_processing-settled :
      (older_than : ℕ) (id : String) (d : Document Value) (s : Ingest B)
      → svc.has_feature_repo ≡ true
      → Filed s.store
      → get svc.tenant_id id s.store ≡ some d
      → is_processing d.status ≡ true
      → ltb d.created_at older_than ≡ true
      → dict_get (fail_interrupted_processing svc older_than s).0.store.docs id
        ≡ some (settled (reason svc s.files s.ledger d) d)
  unfolding fail_interrupted_processing list_processing
  fail_interrupted_processing-settled older_than id d s wired filed h going old =
      let (here, own) = get-parts svc.tenant_id id s.store d h in
      let ds = list_processing svc.tenant_id older_than s.store in
      let p : Document Value → Bool =
        λ x. in_progress svc.tenant_id x && ltb x.created_at older_than in
      let all_same =
        All-keep _ p (dict_values s.store.docs)
          (filed_same id d s.store.docs s.store.docs filed here) in
      let listed : p d ≡ true = rw own (rw going (rw old refl)) in
      let among = filed_among id d s.store.docs p s.store.docs filed here listed in
      simp wired (go (reason svc s.files s.ledger d) refl all_same among here own)
    where
      go :
          (why : Option (String × String))
          → reason svc s.files s.ledger d ≡ why
          → All
              (λ x. str_eq x.id id ≡ true → x ≡ d)
              (list_processing svc.tenant_id older_than s.store)
          → any (λ x. str_eq x.id id) (list_processing svc.tenant_id older_than s.store) ≡ true
          → dict_get s.store.docs id ≡ some d
          → owned_by svc.tenant_id d ≡ true
          → dict_get
              (fail_each svc s.files s.ledger
                (list_processing svc.tenant_id older_than s.store)
                s.store).0.docs
              id
            ≡ some (settled why d)
      go none e same among here own =
          fail_each-spares svc s.files s.ledger (list_processing svc.tenant_id older_than s.store)
            s.store id d
            (All-map _ _ (list_processing svc.tenant_id older_than s.store)
              (λ x f at. ap (reason svc s.files s.ledger) (f at) ∙ e) same)
            here
      go (some (code, message)) e same among here own =
          fail_each-fails svc s.files s.ledger (list_processing svc.tenant_id older_than s.store)
            s.store id code message d same among e here own going
