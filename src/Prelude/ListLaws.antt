-- ===== src/Prelude/ListLaws.antt =====
-- Laws of the tests, searches and updates of Lists.
use Prim.Native.Nat.{ℕ, zero, suc, ◌+◌, ◌≤◌}
use mathlib.Core.Path.{◌≡◌, refl, ap, subst, sym, ◌∙◌}
use mathlib.Core.Bool.{Bool, true, false, false≢true}
use mathlib.Core.List.{List, [], ◌∷◌, ◌++◌, map}
use mathlib.Core.Option
use mathlib.Core.Option.{Option, none, some}
use native.Mathlib.Omega.{arith}
use doktok_ng.Prelude.Lists.{
  keep, any, all, length, get_elem?, set, count, find_first, update_first, update_all, All,
}

-- the second option where the first is none
abbrev pub or_else {ℓ} : {A : Type ℓ} → Option A → Option A → Option A
or_else none o = o
or_else (some a) o = some a

-- 1 for true, the weight of an element in `count`
abbrev pub weight : Bool → ℕ
weight true = 1
weight false = 0

module _ {ℓ} {A : Type ℓ} where
  pub find_first-append :
      (p : A → Bool) (xs ys : List A)
      → find_first p (xs ++ ys) ≡ or_else (find_first p xs) (find_first p ys)
  find_first-append p [] ys = refl
  find_first-append p (x ∷ xs) ys = ground (arith, find_first-append p xs ys)

  -- The update is seen by the search that made it.
  pub find_first-update_self :
      (p : A → Bool) (f : A → A) (xs : List A)
      → ((x : A) → p (f x) ≡ p x)
      → find_first p (update_first p f xs) ≡ Option.map f (find_first p xs)
  find_first-update_self p f [] h = refl
  find_first-update_self p f (x ∷ xs) h = ground (arith, h x, find_first-update_self p f xs h)

  -- A search for other elements does not see the update.
  pub find_first-update_ne :
      (p q : A → Bool) (f : A → A) (xs : List A)
      → ((x : A) → p (f x) ≡ p x)
      → ((x : A) → q x ≡ true → p x ≡ false)
      → find_first p (update_first q f xs) ≡ find_first p xs
  find_first-update_ne p q f [] h d = refl
  find_first-update_ne p q f (x ∷ xs) h d =
      ground (arith, h x, d x, find_first-update_ne p q f xs h d)

  pub find_first-passes :
      (p : A → Bool) (xs : List A) (x : A) → find_first p xs ≡ some x → p x ≡ true
  find_first-passes p [] x h = cc
  find_first-passes p (y ∷ ys) x h = ground (arith, find_first-passes p ys x)

  pub find_first-none :
      (p : A → Bool) (xs : List A) → find_first p xs ≡ none → All (λ x. p x ≡ false) xs
  find_first-none p [] h = tt
  find_first-none p (x ∷ xs) h = ground (arith, find_first-none p xs)

  pub map-update_first {κ} :
      {B : Type κ} (g : A → B) (p : A → Bool) (f : A → A) (xs : List A)
      → ((x : A) → g (f x) ≡ g x)
      → map g (update_first p f xs) ≡ map g xs
  map-update_first g p f [] h = refl
  map-update_first g p f (x ∷ xs) h = ground (arith, h x, map-update_first g p f xs h)

  pub map-update_all {κ} :
      {B : Type κ} (g : A → B) (p : A → Bool) (f : A → A) (xs : List A)
      → ((x : A) → g (f x) ≡ g x)
      → map g (update_all p f xs) ≡ map g xs
  map-update_all g p f [] h = refl
  map-update_all g p f (x ∷ xs) h = ground (arith, h x, map-update_all g p f xs h)

  pub map-set {κ} :
      {B : Type κ} (g : A → B) (xs : List A) (i : ℕ) (x y : A)
      → get_elem? xs i ≡ some x
      → g y ≡ g x
      → map g (set xs i y) ≡ map g xs
  map-set g [] i x y h e = refl
  map-set g (z ∷ xs) zero x y h e = ground arith
  map-set g (z ∷ xs) (suc i) x y h e = ground (arith, map-set g xs i x y h e)

  -- What one element counts for is exchanged.
  pub count-set :
      (p : A → Bool) (xs : List A) (i : ℕ) (x y : A)
      → get_elem? xs i ≡ some x
      → count p (set xs i y) + weight (p x) ≡ count p xs + weight (p y)
  count-set p [] i x y h = cc
  count-set p (z ∷ xs) zero x y h = ground arith
  count-set p (z ∷ xs) (suc i) x y h = ground (arith, count-set p xs i x y h)

  pub count-update_le :
      (p q : A → Bool) (f : A → A) (xs : List A)
      → ((x : A) → p (f x) ≡ true → p x ≡ true)
      → count p (update_all q f xs) ≤ count p xs
  count-update_le p q f [] h = omega arith
  count-update_le p q f (x ∷ xs) h = ground (arith, h x, count-update_le p q f xs h)

  -- An update that takes the test away, of a list with an element that is updated and passed.
  pub count-update_lt :
      (p q : A → Bool) (f : A → A) (xs : List A) (i : ℕ) (x : A)
      → ((y : A) → p (f y) ≡ false)
      → get_elem? xs i ≡ some x
      → p x ≡ true
      → q x ≡ true
      → count p (update_all q f xs) + 1 ≤ count p xs
  count-update_lt p q f [] i x h e px qx = cc
  count-update_lt p q f (y ∷ ys) zero x h e px qx =
      ground (arith, h y, count-update_le p q f ys (λ z pz. absurd (false≢true (sym (h z) ∙ pz))))
  count-update_lt p q f (y ∷ ys) (suc i) x h e px qx =
      ground (arith, h y, count-update_lt p q f ys i x h e px qx)

  pub length-set : (xs : List A) (i : ℕ) (v : A) → length (set xs i v) ≡ length xs
  length-set [] i v = refl
  length-set (x ∷ xs) zero v = refl
  length-set (x ∷ xs) (suc i) v = ap suc (length-set xs i v)

  -- An element that does not pass may be overwritten.
  pub any-set :
      (p : A → Bool) (xs : List A) (i : ℕ) (x y : A)
      → get_elem? xs i ≡ some x
      → p x ≡ false
      → any p xs ≡ true
      → any p (set xs i y) ≡ true
  any-set p [] i x y h e t = cc
  any-set p (z ∷ zs) zero x y h e t = ground arith
  any-set p (z ∷ zs) (suc i) x y h e t = ground (arith, any-set p zs i x y h e)

  pub all→All : (p : A → Bool) (xs : List A) → all p xs ≡ true → All (λ x. p x ≡ true) xs
  all→All p [] h = tt
  all→All p (x ∷ xs) h = ground (arith, all→All p xs)

  pub All→all : (p : A → Bool) (xs : List A) → All (λ x. p x ≡ true) xs → all p xs ≡ true
  All→all p [] h = refl
  All→all p (x ∷ xs) h = ground (arith, All→all p xs h.1)

  pub All-map {κ κ'} :
      (P : A → Type κ) (Q : A → Type κ') (xs : List A) → ((x : A) → P x → Q x) → All P xs → All Q xs
  All-map P Q [] f h = tt
  All-map P Q (x ∷ xs) f h = (f x h.0, All-map P Q xs f h.1)

  pub All-at {κ} :
      (P : A → Type κ) (xs : List A) (i : ℕ) (x : A) → All P xs → get_elem? xs i ≡ some x → P x
  All-at P [] i x h e = cc
  All-at P (y ∷ ys) zero x h e = let same : y ≡ x = cc in subst P same h.0
  All-at P (y ∷ ys) (suc i) x h e = All-at P ys i x h.1 e

  pub All-set {κ} :
      (P : A → Type κ) (xs : List A) (i : ℕ) (y : A) → P y → All P xs → All P (set xs i y)
  All-set P [] i y hy h = tt
  All-set P (x ∷ xs) zero y hy h = (hy, h.1)
  All-set P (x ∷ xs) (suc i) y hy h = (h.0, All-set P xs i y hy h.1)

  pub keep-set :
      (p : A → Bool) (xs : List A) (i : ℕ) (x y : A)
      → get_elem? xs i ≡ some x
      → p x ≡ false
      → p y ≡ false
      → keep p (set xs i y) ≡ keep p xs
  keep-set p [] i x y h ex ey = refl
  keep-set p (z ∷ zs) zero x y h ex ey = ground arith
  keep-set p (z ∷ zs) (suc i) x y h ex ey = ground (arith, keep-set p zs i x y h ex ey)

  pub keep-update_all :
      (p q : A → Bool) (f : A → A) (xs : List A)
      → ((x : A) → q x ≡ true → (p x ≡ false) × (p (f x) ≡ false))
      → keep p (update_all q f xs) ≡ keep p xs
  keep-update_all p q f [] h = refl
  keep-update_all p q f (x ∷ xs) h = ground (arith, h x, keep-update_all p q f xs h)
