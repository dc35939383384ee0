-- ===== src/Prelude/DictLaws.antt =====
-- Laws of dicts.
use Prim.Native.Nat.{◌+◌, ◌≤◌}
use Prim.Native.String.{String}
use mathlib.Core.Path.{◌≡◌, refl, subst}
use mathlib.Core.Logic.{inl, inr}
use mathlib.Core.Bool.{Bool, false}
use mathlib.Core.Option.{none, some}
use mathlib.Core.List.{List, [], ◌∷◌}
use native.Mathlib.Omega.{arith}
use text.Mathlib.Text.{◌==◌ as str_eq}
use text.Mathlib.TextEquality.{eq_iff}
use doktok_ng.Prelude.Tests.{if◌then◌else◌, Bool-cases}
use doktok_ng.Prelude.Lists.{keep, count, find_first, All}
use doktok_ng.Prelude.Dict.{dict_get, dict_set, dict_setdefault, dict_values, dict_delete}

module _ {ℓ} {V : Type ℓ} where
  pub get-set :
      (d : List (String × V)) (k j : String) (v : V)
      → dict_get (dict_set d k v) j ≡ (if str_eq k j then some v else dict_get d j)
  get-set [] k j v = refl
  get-set ((i, w) ∷ d) k j v = ground (arith, eq_iff k j, eq_iff i k, eq_iff i j, get-set d k j v)

  -- An entry that is there stays.
  pub get-setdefault :
      (d : List (String × V)) (k j : String) (v w : V)
      → dict_get d j ≡ some w
      → dict_get (dict_setdefault d k v) j ≡ some w
  get-setdefault [] k j v w h = cc
  get-setdefault ((i, u) ∷ d) k j v w h =
      ground (arith, eq_iff k j, eq_iff i k, eq_iff i j, get-setdefault d k j v w)

  -- An overwritten value that a filter leaves out, before and after, does not show in it.
  pub keep-values-set :
      (p : V → Bool) (d : List (String × V)) (k : String) (v w : V)
      → dict_get d k ≡ some w
      → p w ≡ false
      → p v ≡ false
      → keep p (dict_values (dict_set d k v)) ≡ keep p (dict_values d)
  keep-values-set p [] k v w h hw hv = cc
  keep-values-set p ((i, u) ∷ d) k v w h hw hv = ground (arith, keep-values-set p d k v w)

  -- Neither does one that is added only if the key is new.
  pub keep-values-setdefault :
      (p : V → Bool) (d : List (String × V)) (k : String) (v : V)
      → p v ≡ false
      → keep p (dict_values (dict_setdefault d k v)) ≡ keep p (dict_values d)
  keep-values-setdefault p [] k v hv = ground arith
  keep-values-setdefault p ((i, u) ∷ d) k v hv = ground (arith, keep-values-setdefault p d k v)

  -- How an entry that is overwritten, added or deleted changes a count of the values.
  pub count-values-set :
      (p : V → Bool) (d : List (String × V)) (k : String) (v w : V)
      → dict_get d k ≡ some w
      → count p (dict_values (dict_set d k v)) + (if p w then 1 else 0)
        ≡ count p (dict_values d) + (if p v then 1 else 0)
  count-values-set p [] k v w h = cc
  count-values-set p ((i, u) ∷ d) k v w h = ground (arith, count-values-set p d k v w)

  pub count-values-set_new :
      (p : V → Bool) (d : List (String × V)) (k : String) (v : V)
      → dict_get d k ≡ none
      → count p (dict_values (dict_set d k v)) ≡ count p (dict_values d) + (if p v then 1 else 0)
  count-values-set_new p [] k v h = ground arith
  count-values-set_new p ((i, u) ∷ d) k v h = ground (arith, count-values-set_new p d k v)

  pub count-values-delete :
      (p : V → Bool) (d : List (String × V)) (k : String)
      → count p (dict_values (dict_delete d k)) ≤ count p (dict_values d)
  count-values-delete p [] k = ground arith
  count-values-delete p ((i, u) ∷ d) k = ground (arith, count-values-delete p d k)

  -- A key that is not deleted keeps its value.
  pub get-delete :
      (d : List (String × V)) (k j : String)
      → str_eq k j ≡ false
      → dict_get (dict_delete d k) j ≡ dict_get d j
  get-delete [] k j ne = refl
  get-delete ((i, u) ∷ d) k j ne =
      ground (arith, eq_iff k j, eq_iff i k, eq_iff i j, get-delete d k j ne)

module _ {ℓ κ} {V : Type ℓ} (P : V → Type κ) where
  pub All-get :
      (d : List (String × V)) (k : String) (v : V)
      → All P (dict_values d)
      → dict_get d k ≡ some v
      → P v
  All-get [] k v h e = absurd (cc)
  All-get ((j, w) ∷ d) k v h e = elim (Bool-cases (str_eq j k)) [
    | inl q ↦ let e' : some w ≡ some v = rw q at e in let same : w ≡ v = cc in subst P same h.0
    | inr q ↦ let e' : dict_get d k ≡ some v = rw q at e in All-get d k v h.1 e'
  ]

  pub All-values-set :
      (d : List (String × V)) (k : String) (v : V)
      → All P (dict_values d)
      → P v
      → All P (dict_values (dict_set d k v))
  All-values-set [] k v h p = (p, tt)
  All-values-set ((j, w) ∷ d) k v h p = elim (Bool-cases (str_eq j k)) [
    | inl q ↦ rw q (p, h.1)
    | inr q ↦ rw q (h.0, All-values-set d k v h.1 p)
  ]

  pub All-values-delete :
      (d : List (String × V)) (k : String)
      → All P (dict_values d)
      → All P (dict_values (dict_delete d k))
  All-values-delete [] k h = tt
  All-values-delete ((j, w) ∷ d) k h = elim (Bool-cases (str_eq j k)) [
    | inl q ↦ rw q h.1
    | inr q ↦ rw q (h.0, All-values-delete d k h.1)
  ]

module _ {ℓ} {A : Type ℓ} where
  pub count-find_first-none : (p : A → Bool) (xs : List A) → find_first p xs ≡ none → count p xs ≡ 0
  count-find_first-none p [] h = refl
  count-find_first-none p (x ∷ xs) h = ground (arith, count-find_first-none p xs)
