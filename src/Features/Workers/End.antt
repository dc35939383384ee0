-- ===== src/Features/Workers/End.antt =====
-- How the pool comes to its end.
use doktok_ng.Prelude.{
  ℕ, zero, suc, ◌≡◌, refl, ap, ◌∙◌, ◌⊎◌, inl, inr, true, List, [], ◌∷◌, arith, length, length-set,
  All,
}
use doktok_ng.Features.Workers.{
  Stand, looping, claiming, working, returned, Pool, Step, leave, enter, miss, hit, finish, Run,
  stay, then, pool, crew,
}
use doktok_ng.Features.Workers.Bounds.{total, total-set}

abbrev pub AllReturned : List Stand → Type 0
AllReturned xs = All (λ x. x ≡ returned) xs

abbrev gone : Stand → ℕ
gone returned = 1
gone _ = 0

abbrev pub IsClosed : Pool → Type 0
IsClosed p = (p.drained ≡ true) ⊎ (p.budget ≡ 0)

-- As long as the pool is not closed, no worker has returned.
abbrev NobodyLeft : Pool → Type 0
NobodyLeft p = (total gone p.workers ≡ 0) ⊎ IsClosed p

Step-NobodyLeft : {p q : Pool} → Step p q → NobodyLeft p → NobodyLeft q
Step-NobodyLeft (leave p i at why) h = inr why
Step-NobodyLeft (enter p i at more some_left) (inl h) =
    inl (omega (arith, total-set gone p.workers i looping claiming at))
Step-NobodyLeft (enter p i at more some_left) (inr (inl over)) = cc
Step-NobodyLeft (enter p i at more some_left) (inr (inr none_left)) = absurd (omega arith)
Step-NobodyLeft (miss p i at) h = inr (inl refl)
Step-NobodyLeft (hit p i at) (inl h) =
    inl (omega (arith, total-set gone p.workers i claiming working at))
Step-NobodyLeft (hit p i at) (inr h) = inr h
Step-NobodyLeft (finish p i at) (inl h) =
    inl (omega (arith, total-set gone p.workers i working looping at))
Step-NobodyLeft (finish p i at) (inr h) = inr h

Run-NobodyLeft : {p q : Pool} {n : ℕ} → Run p q n → NobodyLeft p → NobodyLeft q
Run-NobodyLeft stay h = h
Run-NobodyLeft (then st run) h = Run-NobodyLeft run (Step-NobodyLeft st h)

gone-crew : (k : ℕ) → total gone (crew k) ≡ 0
gone-crew zero = refl
gone-crew (suc k) = omega (arith, gone-crew k)

length-set_total : (xs : List Stand) → AllReturned xs → total gone xs ≡ length xs
length-set_total [] h = refl
length-set_total (looping ∷ xs) h = cc
length-set_total (claiming ∷ xs) h = cc
length-set_total (working ∷ xs) h = cc
length-set_total (returned ∷ xs) h = omega (arith, length-set_total xs h.1)

Step-length : {p q : Pool} → Step p q → length q.workers ≡ length p.workers
Step-length (leave p i at why) = length-set p.workers i returned
Step-length (enter p i at more some_left) = length-set p.workers i claiming
Step-length (miss p i at) = length-set p.workers i returned
Step-length (hit p i at) = length-set p.workers i working
Step-length (finish p i at) = length-set p.workers i looping

Run-length : {p q : Pool} {n : ℕ} → Run p q n → length q.workers ≡ length p.workers
Run-length stay = refl
Run-length (then st run) = Run-length run ∙ Step-length st

length-crew : (k : ℕ) → length (crew k) ≡ k
length-crew zero = refl
length-crew (suc k) = ap suc (length-crew k)

-- A pool of at least one worker has returned as a whole only after a claim found no row, or with
-- the budget of the pass used up.
pub Run-IsClosed :
    (max_per_pass k n : ℕ) (q : Pool)
    → Run (pool max_per_pass (crew (suc k))) q n
    → AllReturned q.workers
    → IsClosed q
Run-IsClosed max_per_pass k n q run over = elim (Run-NobodyLeft run (inl (gone-crew (suc k)))) [
  | inl nobody ↦
      absurd (omega (arith, length-set_total q.workers over, Run-length run, length-crew (suc k)))
  | inr closed ↦ closed
]
