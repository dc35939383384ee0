-- ===== src/Features/Ledger/Settled.antt =====
-- `ensure_for_active` as a whole.
use doktok_ng.Prelude.{ℕ, ◌≡◌, refl, ap, ◌∙◌, Option, none, some, List, [], ◌∷◌, String, All, arith}
use doktok_ng.Features.Row.{DocumentFeature}
use doktok_ng.Features.Ledger.{
  Ledger, active_of, find_row, done_row, add_missing, ensure_found, ensure_feature, ensure_features,
  ensure_extract, ensure_documents, ensure_for_active,
}
use doktok_ng.Features.Ledger.Ensure.{
  IsPresent, IsSettled, IsSeeded, Keeps, Keeps-refl, Keeps-trans, add_missing-Keeps, find_row-snoc,
  is_row_self, ensure_features-Keeps, ensure_features-IsSettled, ensure_features_idle,
}

module _ {rows rows' : List DocumentFeature} (k : Keeps rows rows') (t d : String) where
  All-Keeps :
      (ps : List (String × ℕ))
      → All (λ (p : String × ℕ). IsSettled p.1 (find_row t d p.0 rows)) ps
      → All (λ (p : String × ℕ). IsSettled p.1 (find_row t d p.0 rows')) ps
  All-Keeps [] h = tt
  All-Keeps ((f, v) ∷ ps) h = (k.settled t d f v h.0, All-Keeps ps h.1)

  IsSeeded-Keeps : (ps : List (String × ℕ)) → IsSeeded t ps rows d → IsSeeded t ps rows' d
  IsSeeded-Keeps ps h = (All-Keeps ps h.0, k.present t d "extract" h.1)

module _ (uuid : ℕ → String) (now : ℕ) (t : String) where
  extract-IsPresent :
      (d : String) (o : Option DocumentFeature) (acc : Ledger × ℕ)
      → find_row t d "extract" acc.0.rows ≡ o
      → IsPresent (
          find_row t d "extract"
            (add_missing uuid (λ id. done_row id t d "extract" 1 now) o acc).0.rows)
  unfolding add_missing
  extract-IsPresent d none (s, n) e =
      let x = done_row (uuid s.drawn) t d "extract" 1 now in
      rw (find_row-snoc t d "extract" s.rows x e (is_row_self t d "extract" x refl)) tt
  extract-IsPresent d (some r) acc e = rw e tt

  ensure_extract_idle :
      (d : String) (acc : Ledger × ℕ)
      → IsPresent (find_row t d "extract" acc.0.rows)
      → ensure_extract uuid now t d acc ≡ acc
  unfolding ensure_extract
  ensure_extract_idle d acc h = go (find_row t d "extract" acc.0.rows) h
    where
      go :
          (o : Option DocumentFeature)
          → IsPresent o
          → add_missing uuid (λ id. done_row id t d "extract" 1 now) o acc ≡ acc
      go none p = absurd p
      go (some r) p = refl

  module _ (ps : List (String × ℕ)) where
    ensure_document_Keeps :
        (d : String) (acc : Ledger × ℕ)
        → Keeps acc.0.rows
            (ensure_extract uuid now t d (ensure_features uuid now t d ps acc)).0.rows
    unfolding ensure_extract
    ensure_document_Keeps d acc =
        let seeded = ensure_features uuid now t d ps acc in
        Keeps-trans (ensure_features-Keeps uuid now t d ps acc) (
          add_missing-Keeps uuid (λ id. done_row id t d "extract" 1 now)
            (find_row t d "extract" seeded.0.rows) seeded)

    ensure_document-IsSeeded :
        (d : String) (acc : Ledger × ℕ)
        → IsSeeded t ps (ensure_extract uuid now t d (ensure_features uuid now t d ps acc)).0.rows d
    unfolding ensure_extract
    ensure_document-IsSeeded d acc =
        let seeded = ensure_features uuid now t d ps acc in
        let o = find_row t d "extract" seeded.0.rows in
        let k = add_missing-Keeps uuid (λ id. done_row id t d "extract" 1 now) o seeded in
        (
          All-Keeps k t d ps (ensure_features-IsSettled uuid now t d ps acc),
          extract-IsPresent d o seeded refl,
        )

    ensure_documents-Keeps :
        (ds : List String) (acc : Ledger × ℕ)
        → Keeps acc.0.rows (ensure_documents uuid now t ps ds acc).0.rows
    unfolding ensure_documents
    ensure_documents-Keeps [] acc = Keeps-refl acc.0.rows
    ensure_documents-Keeps (d ∷ ds) acc = Keeps-trans (ensure_document_Keeps d acc) (
        ensure_documents-Keeps ds
          (ensure_extract uuid now t d (ensure_features uuid now t d ps acc)))

    ensure_documents-IsSeeded :
        (ds : List String) (acc : Ledger × ℕ)
        → All (IsSeeded t ps (ensure_documents uuid now t ps ds acc).0.rows) ds
    unfolding ensure_documents
    ensure_documents-IsSeeded [] acc = tt
    ensure_documents-IsSeeded (d ∷ ds) acc =
        let next = ensure_extract uuid now t d (ensure_features uuid now t d ps acc) in
        (
          IsSeeded-Keeps (ensure_documents-Keeps ds next) t d ps (ensure_document-IsSeeded d acc),
          ensure_documents-IsSeeded ds next,
        )

    ensure_documents_idle :
        (ds : List String) (acc : Ledger × ℕ)
        → All (IsSeeded t ps acc.0.rows) ds
        → ensure_documents uuid now t ps ds acc ≡ acc
    unfolding ensure_documents
    ensure_documents_idle [] acc h = refl
    ensure_documents_idle (d ∷ ds) acc h =
        ap (λ a. ensure_documents uuid now t ps ds (ensure_extract uuid now t d a))
          (ensure_features_idle uuid now t d ps acc h.0.0)
        ∙ ap (ensure_documents uuid now t ps ds) (ensure_extract_idle d acc h.0.1)
        ∙ ensure_documents_idle ds acc h.1

    -- After `ensure_for_active`, every active document of the tenant has a row for every feature
    -- of the list, not one of them done at a version below the one asked for, and a row for the
    -- inline 'extract' marker.
    pub ensure_for_active-IsSeeded :
        (s : Ledger)
        → All (IsSeeded t ps (ensure_for_active uuid now t ps s).0.rows) (active_of s.active t)
    unfolding ensure_for_active
    ensure_for_active-IsSeeded s = ensure_documents-IsSeeded (active_of s.active t) (s, 0)

module _ (uuid : ℕ → String) (now : ℕ) (t : String) where
  active-add_missing :
      (make : String → DocumentFeature) (o : Option DocumentFeature) (acc : Ledger × ℕ)
      → (add_missing uuid make o acc).0.active ≡ acc.0.active
  unfolding add_missing
  active-add_missing make none (s, n) = refl
  active-add_missing make (some r) acc = refl

  active-ensure_found :
      (d f : String) (v : ℕ) (o : Option DocumentFeature) (acc : Ledger × ℕ)
      → (ensure_found uuid now t d f v o acc).0.active ≡ acc.0.active
  unfolding ensure_found add_missing
  active-ensure_found d f v none acc = refl
  active-ensure_found d f v (some r) (s, n) = ground arith

  active-ensure_features :
      (d : String) (ps : List (String × ℕ)) (acc : Ledger × ℕ)
      → (ensure_features uuid now t d ps acc).0.active ≡ acc.0.active
  unfolding ensure_features ensure_feature
  active-ensure_features d [] acc = refl
  active-ensure_features d ((f, v) ∷ ps) acc =
      active-ensure_features d ps (ensure_feature uuid now t d (f, v) acc)
      ∙ active-ensure_found d f v (find_row t d f acc.0.rows) acc

  active-ensure_documents :
      (ps : List (String × ℕ)) (ds : List String) (acc : Ledger × ℕ)
      → (ensure_documents uuid now t ps ds acc).0.active ≡ acc.0.active
  unfolding ensure_documents ensure_extract
  active-ensure_documents ps [] acc = refl
  active-ensure_documents ps (d ∷ ds) acc =
      let seeded = ensure_features uuid now t d ps acc in
      active-ensure_documents ps ds (ensure_extract uuid now t d seeded)
      ∙ active-add_missing (λ id. done_row id t d "extract" 1 now)
          (find_row t d "extract" seeded.0.rows) seeded
      ∙ active-ensure_features d ps acc

  -- A second `ensure_for_active` with the same features, at any later time, changes nothing in
  -- the ledger and reports that it affected no row.
  pub ensure_for_active_twice :
      (now' : ℕ) (ps : List (String × ℕ)) (s : Ledger)
      → let once = (ensure_for_active uuid now t ps s).0 in
        ensure_for_active uuid now' t ps once ≡ (once, 0)
  unfolding ensure_for_active
  ensure_for_active_twice now' ps s =
      let ds = active_of s.active t in
      let once = (ensure_documents uuid now t ps ds (s, 0)).0 in
      rw (active-ensure_documents ps ds (s, 0)) (
        ensure_documents_idle uuid now' t ps ds (once, 0)
          (ensure_documents-IsSeeded uuid now t ps ds (s, 0)))
