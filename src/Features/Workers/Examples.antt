-- ===== src/Features/Workers/Examples.antt =====
-- The claims at a run of two workers over one row.
use doktok_ng.Prelude.{ℕ, ◌+◌, ◌*◌, ◌≤◌, refl, inl, true, false, List, [], ◌∷◌, arith}
use doktok_ng.Features.Workers.{
  Stand, looping, claiming, working, returned, Pool, leave, enter, miss, hit, finish, Run, stay,
  then, pool, crew,
}
use doktok_ng.Features.Workers.Bounds.{Run-bounds}
use doktok_ng.Features.Workers.End.{IsClosed, Run-IsClosed}

abbrev at : ℕ → ℕ → List Stand → Pool
at budget processed workers = record {
  budget = budget;
  processed = processed;
  drained = false;
  workers = workers;
}

abbrev closed : List Stand → Pool
closed workers = record { budget = 1; processed = 1; drained = true; workers = workers }

-- Both enter; the first finds the row, the second nothing, and then the first sees that the queue
-- is drained.
run : Run (pool 3 (crew 2)) (closed (returned ∷ returned ∷ [])) 6
run = then (enter (pool 3 (crew 2)) 0 refl refl (omega arith)) (
    then (enter (at 2 0 (claiming ∷ looping ∷ [])) 1 refl refl (omega arith)) (
      then (hit (at 1 0 (claiming ∷ claiming ∷ [])) 0 refl) (
        then (finish (at 1 0 (working ∷ claiming ∷ [])) 0 refl) (
          then (miss (at 1 1 (looping ∷ claiming ∷ [])) 1 refl)
            (then (leave (closed (looping ∷ returned ∷ [])) 0 refl (inl refl)) stay)))))

Run-bounds_example : (1 ≤ 3) × (6 ≤ 3 * 3 + 2)
Run-bounds_example = Run-bounds 3 2 6 (closed (returned ∷ returned ∷ [])) run

Run-IsClosed_example : IsClosed (closed (returned ∷ returned ∷ []))
Run-IsClosed_example = Run-IsClosed 3 1 6 (closed (returned ∷ returned ∷ [])) run (refl, (refl, tt))
