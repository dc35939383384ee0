-- ===== src/Features/Workers.antt =====
-- The concurrent drain of one tenant: `_drain_concurrent` of
-- core/doktok_core/features/reconciler.py, as interleavings of its workers. A claim is one step,
-- as the row lock of the ledger makes it; whether it finds a row is left open.
pub mod Bounds
pub mod End
mod Examples
use doktok_ng.Prelude.{
  ℕ, zero, suc, ◌+◌, ◌*◌, ◌≤◌, ◌<◌, ◌≡◌, refl, sym, ap, ◌∙◌, ◌⊎◌, inl, inr, Bool, true, false,
  Option, none, some, List, [], ◌∷◌, arith, get_elem?, set, length, length-set, All, ◌≢◌, ◌-◌,
  Bool-cases,
}

-- Where a worker stands: at the head of its loop, between the budget and the claim's answer,
-- at work on a row, or returned.
pub data Stand : Type 0 where
  looping claiming working returned : Stand

-- The variables that the workers share under the lock, and the workers.
pub record Pool : Type 0 where
  pub budget : ℕ
  pub processed : ℕ
  pub drained : Bool
  pub workers : List Stand

-- A step of the worker at a place.
pub data Step : Pool → Pool → Type 0 where
  -- if drained or budget <= 0: return
  leave :
      (p : Pool) (i : ℕ)
      → get_elem? p.workers i ≡ some looping
      → (p.drained ≡ true) ⊎ (p.budget ≡ 0)
      → Step p (record p { workers = set p.workers i returned })
  -- budget -= 1
  enter :
      (p : Pool) (i : ℕ)
      → get_elem? p.workers i ≡ some looping
      → p.drained ≡ false
      → 0 < p.budget
      → Step p (record p { budget = p.budget - 1; workers = set p.workers i claiming })
  -- no row: drained = True, and return
  miss :
      (p : Pool) (i : ℕ)
      → get_elem? p.workers i ≡ some claiming
      → Step p (record p { drained = true; workers = set p.workers i returned })
  -- the worker processes the row
  hit :
      (p : Pool) (i : ℕ)
      → get_elem? p.workers i ≡ some claiming
      → Step p (record p { workers = set p.workers i working })
  -- processed += 1
  finish :
      (p : Pool) (i : ℕ)
      → get_elem? p.workers i ≡ some working
      → Step p (record p { processed = p.processed + 1; workers = set p.workers i looping })

pub data Run : Pool → Pool → ℕ → Type 0 where
  stay : {p : Pool} → Run p p 0
  then : {p q r : Pool} {n : ℕ} → Step p q → Run q r n → Run p r (suc n)

abbrev pub pool : ℕ → List Stand → Pool
pool max_per_pass workers = record {
  budget = max_per_pass;
  processed = 0;
  drained = false;
  workers = workers;
}

-- `k` workers that have just been submitted
abbrev pub crew : ℕ → List Stand
crew zero = []
crew (suc k) = looping ∷ crew k
