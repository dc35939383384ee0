-- ===== src/Features/Ledger/Requeue.antt =====
-- What a restart recovers.
use doktok_ng.Prelude.{
  ◌≡◌, refl, not, List, [], ◌∷◌, String, arith, str_eq, count, keep, update_all, keep-update_all,
}
use doktok_ng.Features.Row.{DocumentFeature}
use doktok_ng.Features.Ledger.{Ledger, tenant_running, put_back, requeue_running}

count-put_back :
    (t : String) (rows : List DocumentFeature)
    → count (tenant_running t) (update_all (tenant_running t) put_back rows) ≡ 0
count-put_back t [] = refl
count-put_back t (r ∷ rs) = ground (arith, count-put_back t rs)

-- `requeue_running` leaves no running row of the tenant, returns how many there were, and leaves
-- every other row as it is.
pub requeue_running-none_left :
    (t : String) (s : Ledger)
    → (count (tenant_running t) (requeue_running t s).0.rows ≡ 0)
      × ((requeue_running t s).1 ≡ count (tenant_running t) s.rows)
      × (keep (λ r. not (str_eq r.tenant_id t)) (requeue_running t s).0.rows
          ≡ keep (λ r. not (str_eq r.tenant_id t)) s.rows)
unfolding requeue_running
requeue_running-none_left t s = (
  count-put_back t s.rows,
  refl,
  keep-update_all (λ r. not (str_eq r.tenant_id t)) (tenant_running t) put_back s.rows
      (λ x h. ground arith),
)
