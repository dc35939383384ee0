-- ===== src/Documents/Listing.antt =====
-- The listings of InMemoryDocumentRepository: core/doktok_core/documents/inmemory.py, with SortDir
-- and ListAnchor of contracts/doktok_contracts/schemas.py.
pub mod Pages
mod Order
pub mod Shown
pub mod Wanted
mod Examples
use Prim.Native.Nat.{Ordering, compare as nat_compare}
use Prim.Native.String.{compare}
use doktok_ng.Prelude.{
  ℕ, Bool, true, false, Option, none, some, List, [], ◌∷◌, map, String, ltb, if◌then◌else◌, keep,
  take, length, sorted,
}
use doktok_ng.Documents.Document.{Document}
use doktok_ng.Documents.Store.{Store}
use doktok_ng.Documents.Filters.{
  DocumentSort, SortValue, number, words, StrMethods, Seams, Filters, sort_value, filtered,
}

pub data SortDir : Type 0 where
  asc desc : SortDir

pub record ListAnchor : Type 0 where
  pub sort : DocumentSort
  pub direction : SortDir
  pub value : Option SortValue
  pub doc_id : String

-- The three-way comparison of two values, and of two ids where they are equal.
abbrev pub cmp_value : SortValue → SortValue → Ordering
cmp_value (number a) (number b) = nat_compare a b
cmp_value (words a) (words b) = compare a b
cmp_value (number a) (words b) = Ordering.lt
cmp_value (words a) (number b) = Ordering.gt

abbrev pub then_by : Ordering → Ordering → Ordering
then_by Ordering.eq o = o
then_by Ordering.lt o = Ordering.lt
then_by Ordering.gt o = Ordering.gt

abbrev pub turn : SortDir → Ordering → Ordering
turn asc o = o
turn desc Ordering.lt = Ordering.gt
turn desc Ordering.eq = Ordering.eq
turn desc Ordering.gt = Ordering.lt

-- nulls always sort last, regardless of direction
abbrev pub cmp : SortDir → Option SortValue × String → Option SortValue × String → Ordering
cmp direction (none, ai) (none, bi) = turn direction (compare ai bi)
cmp direction (none, ai) (some bv, bi) = Ordering.gt
cmp direction (some av, ai) (none, bi) = Ordering.lt
cmp direction (some av, ai) (some bv, bi) =
    turn direction (then_by (cmp_value av bv) (compare ai bi))

abbrev pub is_lt : Ordering → Bool
is_lt Ordering.lt = true
is_lt _ = false

abbrev pub is_gt : Ordering → Bool
is_gt Ordering.gt = true
is_gt _ = false

abbrev pub id_before : String → String → Bool
id_before a b = is_lt (compare a b)

abbrev pub last_of {ℓ} : {A : Type ℓ} → List A → Option A
last_of [] = none
last_of (x ∷ xs) = elim (last_of xs) [ some y ↦ some y | none ↦ some x ]

module _ (str : StrMethods) {V : Type 0} (seams : Seams) where
  abbrev pub place : DocumentSort → Document V → Option SortValue × String
  place sort d = (sort_value str seams d sort, d.id)

  abbrev pub comes_before : DocumentSort → SortDir → Document V → Document V → Bool
  comes_before sort direction a b = is_lt (cmp direction (place sort a) (place sort b))

  -- cmp((self._sort_value(d, sort), d.id), anchor) > 0
  abbrev pub is_after : DocumentSort → SortDir → ListAnchor → Document V → Bool
  is_after sort direction anchor d =
      is_gt (cmp direction (place sort d) (anchor.value, anchor.doc_id))

  abbrev pub behind_cursor :
      DocumentSort → SortDir → Option ListAnchor → List (Document V) → List (Document V)
  behind_cursor sort direction none docs = docs
  behind_cursor sort direction (some anchor) docs = keep (is_after sort direction anchor) docs

  abbrev pub anchor_of : DocumentSort → SortDir → Option (Document V) → Option ListAnchor
  anchor_of sort direction none = none
  anchor_of sort direction (some d) = some (record {
    sort = sort;
    direction = direction;
    value = sort_value str seams d sort;
    doc_id = d.id;
  })

  -- The page, the total and the anchor of the next page.
  pub list_documents :
      String
      → ℕ
      → Option ListAnchor
      → Filters
      → DocumentSort
      → SortDir
      → Store V
      → List (Document V) × ℕ × Option ListAnchor
  list_documents t limit cursor f sort direction s =
      let found = sorted (comes_before sort direction) (filtered str seams t f s) in
      let docs = behind_cursor sort direction cursor found in
      let page = take limit docs in
      (
        page,
        length found,
        if ltb limit (length docs) then anchor_of sort direction (last_of page) else none,
      )

  pub list_document_ids : String → Filters → ℕ → Store V → List String × ℕ × Bool
  list_document_ids t f cap s =
      let ids = sorted id_before (map (λ (d : Document V). d.id) (filtered str seams t f s)) in
      (take cap ids, length ids, ltb cap (length ids))
