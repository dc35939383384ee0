-- ===== src/Features/Workers/Bounds.antt =====
-- The length of a run of the workers, and what it processes: core/doktok_core/features/reconciler.py.
use doktok_ng.Prelude.{
  ℕ, zero, suc, ◌+◌, ◌*◌, ◌≤◌, ◌<◌, ◌≡◌, refl, some, List, [], ◌∷◌, arith, get_elem?, set,
}
use doktok_ng.Features.Workers.{
  Stand, looping, claiming, working, returned, Pool, Step, leave, enter, miss, hit, finish, Run,
  stay, then, pool, crew,
}

-- A unit of the budget that a worker has taken and not yet given an answer for.
abbrev pub spent : Stand → ℕ
spent claiming = 1
spent working = 1
spent _ = 0

-- How many steps a worker has before its next look at the budget, and its return.
abbrev pub steps_left : Stand → ℕ
steps_left looping = 1
steps_left claiming = 3
steps_left working = 2
steps_left returned = 0

abbrev pub total : (Stand → ℕ) → List Stand → ℕ
total f [] = 0
total f (x ∷ xs) = f x + total f xs

pub total-set :
    (f : Stand → ℕ) (xs : List Stand) (i : ℕ) (x y : Stand)
    → get_elem? xs i ≡ some x
    → total f (set xs i y) + f x ≡ total f xs + f y
total-set f [] i x y h = cc
total-set f (z ∷ zs) zero x y h = ground arith
total-set f (z ∷ zs) (suc i) x y h = ground (arith, total-set f zs i x y h)

abbrev pub claimed : Pool → ℕ
claimed p = p.processed + total spent p.workers + p.budget

abbrev pub measure : Pool → ℕ
measure p = 3 * p.budget + total steps_left p.workers

Step-claimed : {p q : Pool} → Step p q → claimed q ≤ claimed p
Step-claimed (leave p i at why) = omega (arith, total-set spent p.workers i looping returned at)
Step-claimed (enter p i at more some_left) =
    omega (arith, total-set spent p.workers i looping claiming at)
Step-claimed (miss p i at) = omega (arith, total-set spent p.workers i claiming returned at)
Step-claimed (hit p i at) = omega (arith, total-set spent p.workers i claiming working at)
Step-claimed (finish p i at) = omega (arith, total-set spent p.workers i working looping at)

Step-measure : {p q : Pool} → Step p q → measure q < measure p
Step-measure (leave p i at why) =
    omega (arith, total-set steps_left p.workers i looping returned at)
Step-measure (enter p i at more some_left) =
    omega (arith, total-set steps_left p.workers i looping claiming at)
Step-measure (miss p i at) = omega (arith, total-set steps_left p.workers i claiming returned at)
Step-measure (hit p i at) = omega (arith, total-set steps_left p.workers i claiming working at)
Step-measure (finish p i at) = omega (arith, total-set steps_left p.workers i working looping at)

Run-claimed : {p q : Pool} {n : ℕ} → Run p q n → claimed q ≤ claimed p
Run-claimed stay = omega arith
Run-claimed (then st run) = omega (arith, Step-claimed st, Run-claimed run)

Run-measure : {p q : Pool} {n : ℕ} → Run p q n → measure q + n ≤ measure p
Run-measure stay = omega arith
Run-measure (then st run) = omega (arith, Step-measure st, Run-measure run)

total-crew : (k : ℕ) → (total spent (crew k) ≡ 0) × (total steps_left (crew k) ≡ k)
total-crew zero = (refl, refl)
total-crew (suc k) = omega (arith, total-crew k)

-- Whatever the interleaving of `k` workers, no more features are processed than a pass may, and
-- every interleaving ends: it has at most three steps for each unit of the budget and one more
-- for each worker.
pub Run-bounds :
    (max_per_pass k n : ℕ) (q : Pool)
    → Run (pool max_per_pass (crew k)) q n
    → (q.processed ≤ max_per_pass) × (n ≤ 3 * max_per_pass + k)
Run-bounds max_per_pass k n q run = omega (arith, Run-claimed run, Run-measure run, total-crew k)
