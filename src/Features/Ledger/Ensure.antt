-- ===== src/Features/Ledger/Ensure.antt =====
-- The steps of `ensure_for_active`: what each settles, and what it leaves settled.
use doktok_ng.Prelude.{
  ℕ, ◌≡◌, refl, sym, subst, inl, inr, true, false, Option, none, some, List, [], ◌∷◌, ◌++◌, String,
  arith, eq_iff, Bool-cases, All, update_first, find_first-append, find_first-update_self,
  find_first-update_ne, or_else,
}
use mathlib.Core.Option
use doktok_ng.Features.Row.{DocumentFeature, is_row}
use doktok_ng.Features.Keys.{key, same_key, same_key→eq, same_key_self}
use doktok_ng.Features.Ledger.{
  Ledger, find_row, new_row, is_stale, mark_pending, add_missing, ensure_found, ensure_feature,
  ensure_features,
}

-- The row is there, and is not done at a version before this one.
abbrev pub IsSettled : ℕ → Option DocumentFeature → Type 0
IsSettled version none = ⊥
IsSettled version (some r) = is_stale version r ≡ false

abbrev pub IsPresent : Option DocumentFeature → Type 0
IsPresent none = ⊥
IsPresent (some r) = Unit

abbrev pub IsSeeded : String → List (String × ℕ) → List DocumentFeature → String → Type 0
IsSeeded t features rows d =
    All (λ (p : String × ℕ). IsSettled p.1 (find_row t d p.0 rows)) features
    × IsPresent (find_row t d "extract" rows)

-- What is settled in one ledger is settled in the other.
pub record Keeps (rows rows' : List DocumentFeature) : Type 0 where
  pub settled :
      (t d f : String) (version : ℕ)
      → IsSettled version (find_row t d f rows)
      → IsSettled version (find_row t d f rows')
  pub present :
      (t d f : String) → IsPresent (find_row t d f rows) → IsPresent (find_row t d f rows')

pub Keeps-refl : (rows : List DocumentFeature) → Keeps rows rows
Keeps-refl rows = record { settled = λ t d f v h. h; present = λ t d f h. h }

pub Keeps-trans : {a b c : List DocumentFeature} → Keeps a b → Keeps b c → Keeps a c
Keeps-trans k l = record {
  settled = λ t d f v h. l.settled t d f v (k.settled t d f v h);
  present = λ t d f h. l.present t d f (k.present t d f h);
}

IsSettled-or_else :
    (version : ℕ) (o o' : Option DocumentFeature)
    → IsSettled version o
    → IsSettled version (or_else o o')
IsSettled-or_else version none o' h = absurd h
IsSettled-or_else version (some r) o' h = h

IsPresent-or_else : (o o' : Option DocumentFeature) → IsPresent o → IsPresent (or_else o o')
IsPresent-or_else none o' h = absurd h
IsPresent-or_else (some r) o' h = h

Keeps-append : (rows : List DocumentFeature) (x : DocumentFeature) → Keeps rows (rows ++ x ∷ [])
Keeps-append rows x = record {
  settled = λ t d f v h.
      rw (find_first-append (is_row t d f) rows (x ∷ []))
        (IsSettled-or_else v (find_row t d f rows) _ h);
  present = λ t d f h.
      rw (find_first-append (is_row t d f) rows (x ∷ []))
        (IsPresent-or_else (find_row t d f rows) _ h);
}

IsSettled-mark_pending :
    (version v : ℕ) (o : Option DocumentFeature)
    → IsSettled v o
    → IsSettled v (Option.map (mark_pending version) o)
IsSettled-mark_pending version v none h = h
IsSettled-mark_pending version v (some r) h = refl

IsPresent-map :
    (g : DocumentFeature → DocumentFeature) (o : Option DocumentFeature)
    → IsPresent o
    → IsPresent (Option.map g o)
IsPresent-map g none h = h
IsPresent-map g (some r) h = h

-- A search under another key does not see the update of a row.
find_row-update_ne :
    (t d f t' d' f' : String) (version : ℕ) (rows : List DocumentFeature)
    → same_key (t', d', f') (t, d, f) ≡ false
    → find_row t d f (update_first (is_row t' d' f') (mark_pending version) rows)
      ≡ find_row t d f rows
find_row-update_ne t d f t' d' f' version rows ne =
    find_first-update_ne (is_row t d f) (is_row t' d' f') (mark_pending version) rows (λ x. refl)
      (λ x h. ground (arith, eq_iff x.tenant_id t', eq_iff x.document_id d', eq_iff x.feature f'))

Keeps-mark_pending :
    (t d f : String) (version : ℕ) (rows : List DocumentFeature)
    → Keeps rows (update_first (is_row t d f) (mark_pending version) rows)
Keeps-mark_pending t d f version rows = record {
  settled = λ t' d' f' v h. elim (Bool-cases (same_key (t, d, f) (t', d', f'))) [
    | inl e ↦
        subst
          (λ k.
            IsSettled v
              (find_row k.0 k.1 k.2 (update_first (is_row t d f) (mark_pending version) rows)))
          (same_key→eq (t, d, f) (t', d', f') e)
          (rw (find_first-update_self (is_row t d f) (mark_pending version) rows (λ x. refl)) (
            IsSettled-mark_pending version v (find_row t d f rows) (
              subst (λ k. IsSettled v (find_row k.0 k.1 k.2 rows))
                (sym (same_key→eq (t, d, f) (t', d', f') e)) h)))
    | inr ne ↦ rw (find_row-update_ne t' d' f' t d f version rows ne) h
  ];
  present = λ t' d' f' h. elim (Bool-cases (same_key (t, d, f) (t', d', f'))) [
    | inl e ↦
        subst
          (λ k.
            IsPresent
              (find_row k.0 k.1 k.2 (update_first (is_row t d f) (mark_pending version) rows)))
          (same_key→eq (t, d, f) (t', d', f') e)
          (rw (find_first-update_self (is_row t d f) (mark_pending version) rows (λ x. refl)) (
            IsPresent-map (mark_pending version) (find_row t d f rows) (
              subst (λ k. IsPresent (find_row k.0 k.1 k.2 rows))
                (sym (same_key→eq (t, d, f) (t', d', f') e)) h)))
    | inr ne ↦ rw (find_row-update_ne t' d' f' t d f version rows ne) h
  ];
}

-- The search for the row that was just added behind rows without its key.
pub find_row-snoc :
    (t d f : String) (rows : List DocumentFeature) (x : DocumentFeature)
    → find_row t d f rows ≡ none
    → is_row t d f x ≡ true
    → find_row t d f (rows ++ x ∷ []) ≡ some x
find_row-snoc t d f rows x e h = rw (find_first-append (is_row t d f) rows (x ∷ []), e, h)

pub is_row_self : (t d f : String) (x : DocumentFeature) → key x ≡ (t, d, f) → is_row t d f x ≡ true
is_row_self t d f x e = subst (λ k. same_key k (t, d, f) ≡ true) (sym e) (same_key_self (t, d, f))

module _ (uuid : ℕ → String) where
  pub add_missing-Keeps :
      (make : String → DocumentFeature) (o : Option DocumentFeature) (acc : Ledger × ℕ)
      → Keeps acc.0.rows (add_missing uuid make o acc).0.rows
  unfolding add_missing
  add_missing-Keeps make none (s, n) = Keeps-append s.rows (make (uuid s.drawn))
  add_missing-Keeps make (some r) acc = Keeps-refl acc.0.rows

  ensure_found-Keeps :
      (now : ℕ) (t d f : String) (version : ℕ) (o : Option DocumentFeature) (acc : Ledger × ℕ)
      → Keeps acc.0.rows (ensure_found uuid now t d f version o acc).0.rows
  unfolding ensure_found
  ensure_found-Keeps now t d f version none acc =
      add_missing-Keeps (λ id. new_row id t d f version now) none acc
  ensure_found-Keeps now t d f version (some r) (s, n) = elim (Bool-cases (is_stale version r)) [
    | inl stale ↦ rw stale (Keeps-mark_pending t d f version s.rows)
    | inr fresh ↦ rw fresh (Keeps-refl s.rows)
  ]

  -- The pair that a step is about is settled by it.
  ensure_found-IsSettled :
      (now : ℕ) (t d f : String) (version : ℕ) (o : Option DocumentFeature) (acc : Ledger × ℕ)
      → find_row t d f acc.0.rows ≡ o
      → IsSettled version (find_row t d f (ensure_found uuid now t d f version o acc).0.rows)
  unfolding ensure_found add_missing
  ensure_found-IsSettled now t d f version none (s, n) e =
      let x = new_row (uuid s.drawn) t d f version now in
      rw (find_row-snoc t d f s.rows x e (is_row_self t d f x refl)) refl
  ensure_found-IsSettled now t d f version (some r) (s, n) e =
      elim (Bool-cases (is_stale version r)) [
        | inl stale ↦ rw stale (
            rw (find_first-update_self (is_row t d f) (mark_pending version) s.rows (λ x. refl), e)
              refl)
        | inr fresh ↦ rw (fresh, e) fresh
      ]

  -- A settled pair is left alone.
  ensure_found_idle :
      (now : ℕ) (t d f : String) (version : ℕ) (o : Option DocumentFeature) (acc : Ledger × ℕ)
      → IsSettled version o
      → ensure_found uuid now t d f version o acc ≡ acc
  unfolding ensure_found
  ensure_found_idle now t d f version none acc h = absurd h
  ensure_found_idle now t d f version (some r) (s, n) h = rw h

  pub ensure_features-Keeps :
      (now : ℕ) (t d : String) (ps : List (String × ℕ)) (acc : Ledger × ℕ)
      → Keeps acc.0.rows (ensure_features uuid now t d ps acc).0.rows
  unfolding ensure_features ensure_feature
  ensure_features-Keeps now t d [] acc = Keeps-refl acc.0.rows
  ensure_features-Keeps now t d ((f, v) ∷ ps) acc =
      Keeps-trans (ensure_found-Keeps now t d f v (find_row t d f acc.0.rows) acc)
        (ensure_features-Keeps now t d ps (ensure_feature uuid now t d (f, v) acc))

  pub ensure_features-IsSettled :
      (now : ℕ) (t d : String) (ps : List (String × ℕ)) (acc : Ledger × ℕ)
      → All
          (λ (p : String × ℕ).
            IsSettled p.1 (find_row t d p.0 (ensure_features uuid now t d ps acc).0.rows))
          ps
  unfolding ensure_features ensure_feature
  ensure_features-IsSettled now t d [] acc = tt
  ensure_features-IsSettled now t d ((f, v) ∷ ps) acc =
      let next = ensure_feature uuid now t d (f, v) acc in
      (
        (ensure_features-Keeps now t d ps next).settled t d f v
            (ensure_found-IsSettled now t d f v (find_row t d f acc.0.rows) acc refl),
        ensure_features-IsSettled now t d ps next,
      )

  pub ensure_features_idle :
      (now : ℕ) (t d : String) (ps : List (String × ℕ)) (acc : Ledger × ℕ)
      → All (λ (p : String × ℕ). IsSettled p.1 (find_row t d p.0 acc.0.rows)) ps
      → ensure_features uuid now t d ps acc ≡ acc
  unfolding ensure_features ensure_feature
  ensure_features_idle now t d [] acc h = refl
  ensure_features_idle now t d ((f, v) ∷ ps) acc h =
      rw (ensure_found_idle now t d f v (find_row t d f acc.0.rows) acc h.0)
        (ensure_features_idle now t d ps acc h.1)
