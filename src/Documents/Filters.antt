-- ===== src/Documents/Filters.antt =====
-- The columns and the filters of the listings of InMemoryDocumentRepository:
-- core/doktok_core/documents/inmemory.py, with DocumentSort and TokenMatch of
-- contracts/doktok_contracts/schemas.py. The methods of `str` are a parameter, since their tables of
-- Unicode are no part of the program.
use Prim.Native.Nat.{Ordering}
use Prim.Native.String.{compare}
use doktok_ng.Prelude.{
  ℕ, Bool, true, false, not, ◌&&◌, ◌||◌, Option, none, some, List, [], ◌∷◌, map, String, str_eq,
  if◌then◌else◌, any, all, keep, dict_get, dict_values,
}
use doktok_ng.Documents.Document.{
  Document, DocumentStatus, processing, active, failed, quarantined, duplicate,
}
use doktok_ng.Documents.Store.{Store, owned_by}

pub data DocumentSort : Type 0 where
  acquired created by_title by_category by_status by_entities by_chunks : DocumentSort

pub data TokenMatch : Type 0 where
  match_any match_all : TokenMatch

-- The values of a column: instants, dates and counts are numbers. The values of one column are all
-- of one kind, so the order between the kinds is never asked for.
pub data SortValue : Type 0 where
  number : ℕ → SortValue
  words : String → SortValue

-- str.lower, str.strip and `needle in text`
pub record StrMethods : Type 0 where
  pub lower : String → String
  pub strip : String → String
  pub has_part : String → String → Bool

-- What the repository keeps beside the documents, by the id of a document.
pub record Seams : Type 0 where
  pub attention_ids : List String
  pub categories_by_doc : List (String × List String)
  pub tokens_by_doc : List (String × List (String × String))
  pub tag_links : List (String × List String)
  pub entity_counts_by_doc : List (String × ℕ)
  pub chunk_counts_by_doc : List (String × ℕ)

-- The arguments of `_filtered`; an EntityType stands by its value.
pub record Filters : Type 0 where
  pub status : Option DocumentStatus
  pub category : Option String
  pub needs_attention : Bool
  pub unidentifiable : Option Bool
  pub title : Option String
  pub tokens : List String
  pub token_type : Option String
  pub token_match : TokenMatch
  pub tag_ids : List String
  pub tag_match : TokenMatch

abbrev pub status_value : DocumentStatus → String
status_value processing = "processing"
status_value active = "active"
status_value failed = "failed"
status_value quarantined = "quarantined"
status_value duplicate = "duplicate"

abbrev pub or_nothing {ℓ} : {A : Type ℓ} → Option (List A) → List A
or_nothing none = []
or_nothing (some xs) = xs

abbrev pub or_zero : Option ℕ → ℕ
or_zero none = 0
or_zero (some n) = n

abbrev pub is_in : String → List String → Bool
is_in x xs = any (λ y. str_eq y x) xs

-- min(cats), by code points
abbrev pub least : String → List String → String
least x [] = x
least x (y ∷ ys) = least (elim (compare y x) [ Ordering.lt ↦ y | _ ↦ x ]) ys

abbrev pub first_category : List String → Option SortValue
first_category [] = none
first_category (x ∷ xs) = some (words (least x xs))

abbrev pub as_number : Option ℕ → Option SortValue
as_number none = none
as_number (some n) = some (number n)

-- requested <= values, or requested & values; an empty request filters nothing
abbrev pub matches : List String → TokenMatch → List String → Bool
matches [] match values = true
matches (r ∷ rs) match_all values = all (λ x. is_in x values) (r ∷ rs)
matches (r ∷ rs) match_any values = any (λ x. is_in x values) (r ∷ rs)

abbrev pub of_type : Option String → String → Bool
of_type none t = true
of_type (some wanted) t = str_eq t wanted

abbrev pub flagged : Option Bool → Bool
flagged none = false
flagged (some b) = b

abbrev pub passes_flag : Option Bool → Option Bool → Bool
passes_flag none value = true
passes_flag (some true) value = flagged value
passes_flag (some false) value = not (flagged value)

abbrev pub passes_status : Option DocumentStatus → DocumentStatus → Bool
passes_status none s = true
passes_status (some wanted) s = str_eq (status_value s) (status_value wanted)

abbrev pub passes_category : Option String → List String → Bool
passes_category none cats = true
passes_category (some c) cats = is_in c cats

module _ (str : StrMethods) where
  -- d.title.lower() if d.title else None
  abbrev pub title_value : Option String → Option SortValue
  title_value none = none
  title_value (some title) = if str_eq title "" then none else some (words (str.lower title))

  -- title.strip().lower() if title and title.strip() else None
  abbrev pub title_clean : Option String → Option String
  title_clean none = none
  title_clean (some title) =
      if str_eq title "" || str_eq (str.strip title) ""
      then none
      else some (str.lower (str.strip title))

  abbrev pub has_title : String → Option String → Bool
  has_title needle none = false
  has_title needle (some title) = str.has_part needle (str.lower title)

  abbrev pub passes_title : Option String → Option String → Bool
  passes_title none title = true
  passes_title (some needle) title = has_title needle title

  module _ {V : Type 0} (seams : Seams) where
    abbrev pub sort_value : Document V → DocumentSort → Option SortValue
    sort_value d acquired = some (number d.created_at)
    sort_value d created = as_number d.document_date
    sort_value d by_title = title_value d.title
    sort_value d by_status = some (words (status_value d.status))
    sort_value d by_entities = some (number (or_zero (dict_get seams.entity_counts_by_doc d.id)))
    sort_value d by_chunks = some (number (or_zero (dict_get seams.chunk_counts_by_doc d.id)))
    sort_value d by_category = first_category (or_nothing (dict_get seams.categories_by_doc d.id))

    abbrev pub matches_tokens : List String → Option String → TokenMatch → Document V → Bool
    matches_tokens tokens token_type match d = matches tokens match (
        map (λ (p : String × String). p.1)
          (keep (λ (t, v). of_type token_type t) (or_nothing (dict_get seams.tokens_by_doc d.id))))

    abbrev pub matches_tags : List String → TokenMatch → Document V → Bool
    matches_tags tag_ids match d =
        matches tag_ids match (or_nothing (dict_get seams.tag_links d.id))

    unfoldable pub passes : String → Filters → Document V → Bool
    passes t f d =
        owned_by t d
        && passes_status f.status d.status
        && (not f.needs_attention || is_in d.id seams.attention_ids)
        && passes_category f.category (or_nothing (dict_get seams.categories_by_doc d.id))
        && passes_title (title_clean f.title) d.title
        && passes_flag f.unidentifiable d.unidentifiable
        && matches_tokens f.tokens f.token_type f.token_match d
        && matches_tags f.tag_ids f.tag_match d

    abbrev pub filtered : String → Filters → Store V → List (Document V)
    filtered t f s = keep (passes t f) (dict_values s.docs)
