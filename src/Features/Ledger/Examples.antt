-- ===== src/Features/Ledger/Examples.antt =====
-- The claims at a ledger with one active document.
use doktok_ng.Prelude.{ℕ, ◌≡◌, List, [], ◌∷◌, String, All}
use doktok_ng.Features.Row.{DocumentFeature, running}
use doktok_ng.Features.Ledger.{Ledger, active_of, done_row, ensure_for_active}
use doktok_ng.Features.Ledger.Ensure.{IsSeeded}
use doktok_ng.Features.Ledger.Settled.{ensure_for_active-IsSeeded, ensure_for_active_twice}

abbrev uuid : ℕ → String
uuid n = "id"

abbrev old_embed : DocumentFeature
old_embed = done_row "e1" "acme" "doc1" "embed" 1 5

abbrev ledger : Ledger
ledger = record {
  rows = old_embed ∷ record old_embed { id = "e2"; feature = "title"; status = running } ∷ [];
  active = ("acme", "doc1" ∷ "doc2" ∷ []) ∷ [];
  drawn = 0;
}

abbrev features : List (String × ℕ)
features = ("embed", 2) ∷ ("title", 1) ∷ []

ensure_for_active-IsSeeded_example :
    All
      (IsSeeded "acme" features (ensure_for_active uuid 9 "acme" features ledger).0.rows)
      (active_of ledger.active "acme")
ensure_for_active-IsSeeded_example = ensure_for_active-IsSeeded uuid 9 "acme" features ledger

ensure_for_active_twice_example :
    let once = (ensure_for_active uuid 9 "acme" features ledger).0 in
    ensure_for_active uuid 12 "acme" features once ≡ (once, 0)
ensure_for_active_twice_example = ensure_for_active_twice uuid 9 "acme" 12 features ledger
