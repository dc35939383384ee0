-- ===== src/Documents/Store/Adds.antt =====
-- What the writes of the document repository do at an id that is not there yet:
-- core/doktok_core/documents/inmemory.py.
use doktok_ng.Prelude.{
  ◌≡◌, refl, ◌⊎◌, inl, inr, false, Option, none, some, List, [], ◌∷◌, String, str_eq, dict_get,
  dict_set, dict_delete, Bool-cases,
}
use doktok_ng.Documents.Document.{Document, is_active}
use doktok_ng.Documents.Store.{
  Store, Result, returned, duplicate_active, has_twin, owned_by, add, add_found, delete,
  delete_found,
}

module _ {V : Type 0} where
  pub add-cases :
      (d : Document V) (s : Store V)
      → dict_get s.docs d.id ≡ none
      → (◌≡◌ {A = Store V × Result Unit}
          (add d s)
          (record s { docs = dict_set s.docs d.id d }, returned tt))
        ⊎ (◌≡◌ {A = Store V × Result Unit} (add d s) (s, duplicate_active))
  unfolding add add_found
  add-cases d s h = rw h (elim (Bool-cases (has_twin d s)) [
    | inl twin ↦ rw twin (inr refl)
    | inr free ↦ rw free (inl refl)
  ])

  -- A document that is not active has no twin.
  pub add-inactive :
      (d : Document V) (s : Store V)
      → dict_get s.docs d.id ≡ none
      → is_active d.status ≡ false
      → ◌≡◌ {A = Store V × Result Unit}
          (add d s)
          (record s { docs = dict_set s.docs d.id d }, returned tt)
  unfolding add add_found
  add-inactive d s h inactive = rw h (rw inactive refl)

  get-delete-none :
      (docs : List (String × Document V)) (k j : String)
      → dict_get docs j ≡ none
      → dict_get (dict_delete docs k) j ≡ none
  get-delete-none [] k j h = refl
  get-delete-none ((i, d) ∷ docs) k j h = elim (Bool-cases (str_eq i j)) [
    | inl e ↦ let h' : some d ≡ none = rw e at h in absurd (cc)
    | inr e ↦
        let h' : dict_get docs j ≡ none = rw e at h in
        elim (Bool-cases (str_eq i k)) [
          | inl f ↦ rw f h'
          | inr f ↦ rw f (rw e (get-delete-none docs k j h'))
        ]
  ]

  -- An id that is not there is not there after a deletion.
  pub delete-none :
      (t id j : String) (s : Store V)
      → dict_get s.docs j ≡ none
      → dict_get (delete t id s).docs j ≡ none
  unfolding delete delete_found
  delete-none t id j s h = go (dict_get s.docs id)
    where
      go : (o : Option (Document V)) → dict_get (delete_found t id o s).docs j ≡ none
      go none = h
      go (some d) = elim (Bool-cases (owned_by t d)) [
        | inl own ↦ rw own (get-delete-none s.docs id j h)
        | inr other ↦ rw other h
      ]
