-- ===== src/Features/Keys.antt =====
-- The key of a ledger row, (tenant_id, document_id, feature), and ledgers with one row per key.
use doktok_ng.Prelude.{
  ◌≡◌, Bool, true, false, ◌&&◌, List, [], ◌∷◌, ◌++◌, map, String, str_eq, eq_iff, str_eq_self,
  arith, Bool-cases, All,
}
use doktok_ng.Features.Row.{DocumentFeature}

abbrev pub Key : Type 0
Key = String × String × String

abbrev pub key : DocumentFeature → Key
key r = (r.tenant_id, r.document_id, r.feature)

abbrev pub same_key : Key → Key → Bool
same_key a b = str_eq a.0 b.0 && str_eq a.1 b.1 && str_eq a.2 b.2

-- No two keys of the list are the same.
abbrev pub Distinct : List Key → Type 0
Distinct [] = Unit
Distinct (k ∷ ks) = All (λ j. same_key k j ≡ false) ks × Distinct ks

-- The unique constraint of the table: one row for a tenant, a document and a feature.
abbrev pub UniqueKeys : List DocumentFeature → Type 0
UniqueKeys rows = Distinct (map key rows)

pub same_key→eq : (a b : Key) → same_key a b ≡ true → a ≡ b
same_key→eq a b h = ground (arith, eq_iff a.0 b.0, eq_iff a.1 b.1, eq_iff a.2 b.2)

pub same_key_self : (a : Key) → same_key a a ≡ true
same_key_self a = ground (arith, str_eq_self a.0, str_eq_self a.1, str_eq_self a.2)

pub same_key_comm : (a b : Key) → same_key a b ≡ false → same_key b a ≡ false
same_key_comm a b h = ground (arith, same_key_self a, same_key→eq b a, Bool-cases (same_key b a))

-- A key that no row of the list has can be added behind them.
pub Distinct-snoc :
    (ks : List Key) (k : Key)
    → All (λ j. same_key j k ≡ false) ks
    → Distinct ks
    → Distinct (ks ++ k ∷ [])
Distinct-snoc [] k fresh h = (tt, tt)
Distinct-snoc (j ∷ ks) k fresh h = (behind ks h.0, Distinct-snoc ks k fresh.1 h.1)
  where
    behind :
        (l : List Key)
        → All (λ i. same_key j i ≡ false) l
        → All (λ i. same_key j i ≡ false) (l ++ k ∷ [])
    behind [] a = (fresh.0, tt)
    behind (i ∷ l) a = (a.0, behind l a.1)
