-- ===== src/Documents/Listing/Order.antt =====
-- The order of the listings is an order: `cmp` of core/doktok_core/documents/inmemory.py.
use Prim.Native.Nat.{Ordering, compare as nat_compare}
use Prim.Native.String.compare
use Prim.Native.String.{compare, [], ◌∷◌}
use Prim.Native.Char.{code}
use text.Mathlib.TextPositions.{compare_refl}
use doktok_ng.Prelude.{
  ℕ, ◌≡◌, refl, Bool, true, false, Option, none, some, String, arith, IsKeyOrder,
}
use doktok_ng.Documents.Document.{Document}
use doktok_ng.Documents.Filters.{
  DocumentSort, SortValue, number, words, StrMethods, Seams, sort_value,
}
use doktok_ng.Documents.Listing.{
  SortDir, asc, desc, cmp_value, then_by, turn, cmp, is_lt, is_gt, comes_before,
}

abbrev is_eq : Ordering → Bool
is_eq Ordering.eq = true
is_eq _ = false

-- How three things may compare: the first with the second, the second with the third, and the first
-- with the third.
abbrev fits : Ordering → Ordering → Ordering → Bool
fits Ordering.eq Ordering.lt o = is_lt o
fits Ordering.eq Ordering.eq o = is_eq o
fits Ordering.eq Ordering.gt o = is_gt o
fits Ordering.lt Ordering.lt o = is_lt o
fits Ordering.lt Ordering.eq o = is_lt o
fits Ordering.lt Ordering.gt o = true
fits Ordering.gt Ordering.lt o = true
fits Ordering.gt Ordering.eq o = is_gt o
fits Ordering.gt Ordering.gt o = is_gt o

fits-then :
    (p q r p' q' r' : Ordering)
    → fits p q r ≡ true
    → fits p' q' r' ≡ true
    → fits (then_by p p') (then_by q q') (then_by r r') ≡ true
fits-then p q r p' q' r' h l = ground arith

fits-turn :
    (direction : SortDir) (p q r : Ordering)
    → fits p q r ≡ true
    → fits (turn direction p) (turn direction q) (turn direction r) ≡ true
fits-turn direction p q r h = ground arith

nat_fits : (a b c : ℕ) → fits (nat_compare a b) (nat_compare b c) (nat_compare a c) ≡ true
nat_fits a b c = ground arith

text_fits : (a b c : String) → fits (compare a b) (compare b c) (compare a c) ≡ true
text_fits [] [] [] = ground (arith, compare.nil-nil)
text_fits [] [] (e ∷ u) = ground (arith, compare.nil-nil, compare.nil-cons e u)
text_fits [] (d ∷ t) [] = ground (arith, compare.nil-cons d t, compare.cons-nil d t)
text_fits [] (d ∷ t) (e ∷ u) = ground (arith, compare.nil-cons d t, compare.nil-cons e u)
text_fits (c ∷ s) [] [] = ground (arith, compare.nil-nil, compare.cons-nil c s)
text_fits (c ∷ s) [] (e ∷ u) = ground (arith, compare.cons-nil c s, compare.nil-cons e u)
text_fits (c ∷ s) (d ∷ t) [] = ground (arith, compare.cons-nil c s, compare.cons-nil d t)
text_fits (c ∷ s) (d ∷ t) (e ∷ u) = ground (
  arith,
  compare.cons-cons c d s t,
  compare.cons-cons d e t u,
  compare.cons-cons c e s u,
  nat_fits (code c) (code d) (code e),
  text_fits s t u,
)

value_fits : (a b c : SortValue) → fits (cmp_value a b) (cmp_value b c) (cmp_value a c) ≡ true
value_fits (number a) (number b) (number c) = nat_fits a b c
value_fits (number a) (number b) (words c) = ground arith
value_fits (number a) (words b) (number c) = refl
value_fits (number a) (words b) (words c) = ground arith
value_fits (words a) (number b) (number c) = ground arith
value_fits (words a) (number b) (words c) = refl
value_fits (words a) (words b) (number c) = ground arith
value_fits (words a) (words b) (words c) = text_fits a b c

cmp_fits :
    (direction : SortDir) (a b c : Option SortValue) (ai bi ci : String)
    → fits
        (cmp direction (a, ai) (b, bi))
        (cmp direction (b, bi) (c, ci))
        (cmp direction (a, ai) (c, ci))
      ≡ true
cmp_fits direction none none none ai bi ci = fits-turn direction _ _ _ (text_fits ai bi ci)
cmp_fits direction none none (some c) ai bi ci = ground arith
cmp_fits direction none (some b) none ai bi ci = refl
cmp_fits direction none (some b) (some c) ai bi ci = ground arith
cmp_fits direction (some a) none none ai bi ci = ground arith
cmp_fits direction (some a) none (some c) ai bi ci = refl
cmp_fits direction (some a) (some b) none ai bi ci = ground arith
cmp_fits direction (some a) (some b) (some c) ai bi ci =
    fits-turn direction _ _ _ (fits-then _ _ _ _ _ _ (value_fits a b c) (text_fits ai bi ci))

value_self : (a : SortValue) → cmp_value a a ≡ Ordering.eq
value_self (number a) = ground arith
value_self (words a) = compare_refl a

cmp_self :
    (direction : SortDir) (a : Option SortValue) (ai : String)
    → cmp direction (a, ai) (a, ai) ≡ Ordering.eq
cmp_self asc none ai = compare_refl ai
cmp_self desc none ai = rw (compare_refl ai) refl
cmp_self asc (some a) ai = rw (value_self a) (compare_refl ai)
cmp_self desc (some a) ai = rw (value_self a) (rw (compare_refl ai) refl)

-- The order in which the listings show documents.
pub comes_before-IsKeyOrder :
    (str : StrMethods) {V : Type 0} (seams : Seams) (sort : DocumentSort) (direction : SortDir)
    → IsKeyOrder {A = Document V} (comes_before str seams sort direction)
comes_before-IsKeyOrder str seams sort direction = record {
  asymmetric = λ a b h.
      let v = sort_value str seams a sort in
      let w = sort_value str seams b sort in
      ground (arith, cmp_fits direction v w v a.id b.id a.id, cmp_self direction v a.id);
  cotransitive = λ a b c h l. ground (
    arith,
    cmp_fits direction (sort_value str seams a sort) (sort_value str seams b sort)
        (sort_value str seams c sort) a.id b.id c.id,
  );
}
