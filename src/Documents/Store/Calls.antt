-- ===== src/Documents/Store/Calls.antt =====
-- Any sequence of calls of the document repository that change it.
use doktok_ng.Prelude.{
  ℕ, ◌≡◌, Bool, true, false, Option, some, List, [], ◌∷◌, String, str_eq, All, dict_get,
}
use doktok_ng.Documents.Document.{Document}
use doktok_ng.Documents.Store.{
  Store, add, activate, fail, delete, set_metadata, set_title, clear_manual_title,
  set_unidentifiable,
}
use doktok_ng.Documents.Store.Copies.{
  has_name, HasOneCopy, add-HasOneCopy, activate-HasOneCopy, fail-HasOneCopy, delete-HasOneCopy,
  set_metadata-HasOneCopy, set_title-HasOneCopy, clear_manual_title-HasOneCopy,
  set_unidentifiable-HasOneCopy,
}
use doktok_ng.Documents.Store.Follows.{
  Kept, Follows-refl, Follows-trans, add-Kept, activate-Kept, fail-Kept, delete-Kept,
  set_metadata-Kept, set_title-Kept, clear_manual_title-Kept, set_unidentifiable-Kept,
}

pub data StoreCall (V : Type 0) : Type 0 where
  add_document : Document V → StoreCall V
  fill_in : String → String → Option String → Option ℕ → Option String → Option String → StoreCall V
  rename : String → String → String → StoreCall V
  clear_title : String → String → StoreCall V
  assess : String → String → Option Bool → StoreCall V
  activate_document : ℕ → String → String → String → List (String × V) → StoreCall V
  fail_document : String → String → String → String → StoreCall V
  delete_document : String → String → StoreCall V

module _ {V : Type 0} (text : String → V) where
  pub run_call : StoreCall V → Store V → Store V
  run_call (add_document d) s = (add d s).0
  run_call (fill_in t id title date location summary) s =
      set_metadata t id title date location summary s
  run_call (rename t id title) s = set_title t id title s
  run_call (clear_title t id) s = clear_manual_title t id s
  run_call (assess t id value) s = set_unidentifiable t id value s
  run_call (activate_document now t id path metadata) s = (activate now t id path metadata s).0
  run_call (fail_document t id code message) s = (fail text t id code message s).0
  run_call (delete_document t id) s = delete t id s

  pub run_calls : List (StoreCall V) → Store V → Store V
  run_calls [] s = s
  run_calls (c ∷ cs) s = run_calls cs (run_call c s)

  -- An added document has an id that is not empty.
  abbrev pub is_named : StoreCall V → Bool
  is_named (add_document d) = has_name d
  is_named _ = true

  -- The calls that may end the life of a document or give its title another owner.
  abbrev pub renames_or_deletes : String → StoreCall V → Bool
  renames_or_deletes id (rename t j title) = str_eq j id
  renames_or_deletes id (clear_title t j) = str_eq j id
  renames_or_deletes id (delete_document t j) = str_eq j id
  renames_or_deletes id _ = false

  run_call-HasOneCopy :
      (c : StoreCall V) (s : Store V) → is_named c ≡ true → HasOneCopy s → HasOneCopy (run_call c s)
  unfolding run_call
  run_call-HasOneCopy (add_document d) s n h = add-HasOneCopy d s n h
  run_call-HasOneCopy (fill_in t id title date location summary) s n h =
      set_metadata-HasOneCopy t id title date location summary s h
  run_call-HasOneCopy (rename t id title) s n h = set_title-HasOneCopy t id title s h
  run_call-HasOneCopy (clear_title t id) s n h = clear_manual_title-HasOneCopy t id s h
  run_call-HasOneCopy (assess t id value) s n h = set_unidentifiable-HasOneCopy t id value s h
  run_call-HasOneCopy (activate_document now t id path metadata) s n h =
      activate-HasOneCopy now t id path metadata s h
  run_call-HasOneCopy (fail_document t id code message) s n h =
      fail-HasOneCopy text t id code message s h
  run_call-HasOneCopy (delete_document t id) s n h = delete-HasOneCopy t id s h

  -- From a repository with at most one active document for a tenant and a content, in which every
  -- document has an id that is not empty, any calls that add only such documents lead to one of the
  -- same kind: no order of additions, activations and failures leaves two active documents with one
  -- content to a tenant.
  pub run_calls-HasOneCopy :
      (cs : List (StoreCall V)) (s : Store V)
      → All (λ c. is_named c ≡ true) cs
      → HasOneCopy s
      → HasOneCopy (run_calls cs s)
  unfolding run_calls
  run_calls-HasOneCopy [] s n h = h
  run_calls-HasOneCopy (c ∷ cs) s n h =
      run_calls-HasOneCopy cs (run_call c s) n.1 (run_call-HasOneCopy c s n.0 h)

  run_call-Kept :
      (c : StoreCall V) (id : String) (x : Document V) (s : Store V)
      → renames_or_deletes id c ≡ false
      → dict_get s.docs id ≡ some x
      → Kept id x (run_call c s)
  unfolding run_call
  run_call-Kept (add_document d) id x s n h = add-Kept d id x s h
  run_call-Kept (fill_in t j title date location summary) id x s n h =
      set_metadata-Kept t j title date location summary id x s h
  run_call-Kept (rename t j title) id x s n h = set_title-Kept t j title id x s n h
  run_call-Kept (clear_title t j) id x s n h = clear_manual_title-Kept t j id x s n h
  run_call-Kept (assess t j value) id x s n h = set_unidentifiable-Kept t j value id x s h
  run_call-Kept (activate_document now t j path metadata) id x s n h =
      activate-Kept now t j path metadata id x s h
  run_call-Kept (fail_document t j code message) id x s n h =
      fail-Kept text t j code message id x s h
  run_call-Kept (delete_document t j) id x s n h = delete-Kept t j id x s n h

  -- While no call deletes a document, sets its title or clears the mark of a title that a user set,
  -- the document stays in the repository with its owner and its content, its status does not change
  -- once it is not processing, and a title that a user has set stays with its mark, whatever the
  -- enrichment writes.
  pub run_calls-Kept :
      (cs : List (StoreCall V)) (id : String) (x : Document V) (s : Store V)
      → All (λ c. renames_or_deletes id c ≡ false) cs
      → dict_get s.docs id ≡ some x
      → Kept id x (run_calls cs s)
  unfolding run_calls
  run_calls-Kept [] id x s n h = record { document = x; at = h; follows = Follows-refl x }
  run_calls-Kept (c ∷ cs) id x s n h =
      let first = run_call-Kept c id x s n.0 h in
      let rest = run_calls-Kept cs id first.document (run_call c s) n.1 first.at in
      record {
        document = rest.document;
        at = rest.at;
        follows = Follows-trans x first.document rest.document first.follows rest.follows;
      }
