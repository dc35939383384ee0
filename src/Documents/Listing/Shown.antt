-- ===== src/Documents/Listing/Shown.antt =====
-- Which documents of the store a page of the listing shows, and in which order:
-- InMemoryDocumentRepository.list_documents of core/doktok_core/documents/inmemory.py.
use mathlib.Core.List.{Memᴰ}
use doktok_ng.Prelude.{
  ℕ, ◌≡◌, ◌<◌, ◌⊎◌, Bool, true, false, Option, none, List, String, All, length, count, SortedBy,
  dict_values,
}
use doktok_ng.Documents.Document.{Document}
use doktok_ng.Documents.Store.{Store}
use doktok_ng.Documents.Filters.{DocumentSort, StrMethods, Seams, Filters, passes}
use doktok_ng.Documents.Listing.{SortDir, ListAnchor, comes_before}
use doktok_ng.Documents.Listing.Pages.{follows_cursor}
use doktok_ng.Documents.Listing.Wanted.{IsWanted}

module _ {ℓ} {A : Type ℓ} (lt : A → A → Bool) where
  -- An element is among the first ones, or there are as many as asked for and it comes before none.
  abbrev Fits : ℕ → List A → A → Type ℓ
  Fits n page x = Memᴰ x page ⊎ ((length page ≡ n) × All (λ d. lt x d ≡ false) page)

module _ (str : StrMethods) {V : Type 0} (seams : Seams) (t : String) (f : Filters)
    (sort : DocumentSort) (direction : SortDir) (limit : ℕ) (cursor : Option ListAnchor)
    (s : Store V) where
  abbrev pub Follows : Document V → Type 0
  Follows d = follows_cursor str seams t f sort direction limit cursor s cursor d ≡ true

  -- What a page is, with the total and the anchor of the next page.
  pub record IsShown (page : List (Document V)) (total : ℕ) (following : Option ListAnchor)
      : Type 0 where
    pub wanted : All (IsWanted str seams t f) page
    pub behind : All Follows page
    pub ordered : SortedBy (comes_before str seams sort direction) page
    pub first :
        All
          (λ d.
            IsWanted str seams t f d
            → Follows d
            → Memᴰ d page
              ⊎ ((length page ≡ limit)
                  × All (λ e. comes_before str seams sort direction d e ≡ false) page))
          (dict_values s.docs)
    pub last :
        0 < limit
        → following ≡ none
        → All (λ d. IsWanted str seams t f d → Follows d → Memᴰ d page) (dict_values s.docs)
    pub counted : total ≡ count (passes str seams t f) (dict_values s.docs)
    pub decided :
        (d : Document V)
        → (passes str seams t f d ≡ true → IsWanted str seams t f d)
          × (IsWanted str seams t f d → passes str seams t f d ≡ true)
