-- ===== src/Features/Queries.antt =====
-- The reads of the feature ledger: core/doktok_core/features/inmemory.py.
use Prim.Native.Nat.{Ordering}
use Prim.Native.String.{compare}
use doktok_ng.Prelude.{
  ℕ, ◌+◌, ◌&&◌, ◌||◌, List, [], ◌∷◌, map, String, str_eq, if◌then◌else◌, keep, any, Bool, true,
  false, take, sorted,
}
use doktok_ng.Features.Row.{DocumentFeature, is_pending, is_running, is_done, is_failed}
use doktok_ng.Features.Ledger.{Ledger}

unfoldable pub list_for_document : String → String → Ledger → List DocumentFeature
list_for_document t d s = keep (λ r. str_eq r.tenant_id t && str_eq r.document_id d) s.rows

-- set(...) of the documents that have a pending or running row; the order is not part of the result
pub documents_with_open_features : String → Ledger → List String
documents_with_open_features t s =
    map (λ (r : DocumentFeature). r.document_id)
      (keep (λ r. str_eq r.tenant_id t && (is_pending r.status || is_running r.status)) s.rows)

-- counts[document] = (done, failed), in the order in which the documents first appear
pub bump_counts : DocumentFeature → List (String × ℕ × ℕ) → List (String × ℕ × ℕ)
bump_counts r [] =
    (r.document_id, if is_done r.status then 1 else 0, if is_failed r.status then 1 else 0) ∷ []
bump_counts r ((d, done_n, failed_n) ∷ rest) =
    let others = bump_counts r rest in
    if str_eq d r.document_id
    then (
      d,
      done_n + (if is_done r.status then 1 else 0),
      failed_n + (if is_failed r.status then 1 else 0),
    )
      ∷ rest
    else (d, done_n, failed_n) ∷ others

pub count_rows : List DocumentFeature → List (String × ℕ × ℕ) → List (String × ℕ × ℕ)
count_rows [] counts = counts
count_rows (r ∷ rs) counts = count_rows rs (bump_counts r counts)

pub feature_counts_for_documents : String → List String → Ledger → List (String × ℕ × ℕ)
feature_counts_for_documents t wanted s =
    count_rows (keep (λ r. str_eq r.tenant_id t && any (λ d. str_eq d r.document_id) wanted) s.rows)
      []

-- (a.document_id, a.feature) < (b.document_id, b.feature), by code points
abbrev pub by_document : DocumentFeature → DocumentFeature → Bool
by_document a b = elim (compare a.document_id b.document_id) [
  | Ordering.lt ↦ true
  | Ordering.gt ↦ false
  | Ordering.eq ↦ elim (compare a.feature b.feature) [ Ordering.lt ↦ true | _ ↦ false ]
]

pub list_for_tenant : String → ℕ → Ledger → List DocumentFeature
list_for_tenant t limit s =
    take limit (sorted by_document (keep (λ r. str_eq r.tenant_id t) s.rows))

pub list_for_documents : String → List String → Ledger → List DocumentFeature
list_for_documents t wanted s =
    sorted by_document
      (keep (λ r. str_eq r.tenant_id t && any (λ d. str_eq d r.document_id) wanted) s.rows)
