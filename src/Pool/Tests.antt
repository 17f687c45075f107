-- ===== src/Pool/Tests.antt =====
-- The pool with two keys and two slots.
use xevos.Base.{ℕ, ◌≡◌, refl, List, [], ◌∷◌, map, arith}
use xevos.Pool.Keys.{soonest, soonest_from, reserve_key, reserve_all}
use xevos.Pool.Spacing.{Spaced, reserve_all-Spaced}
use xevos.Pool.Slots.{
  Op, acquires, releases, IsFair, opened, run, step, acquire, acquire_with, release, release_to,
  run-IsFair,
}

abbrev calls : List ℕ
calls = 1000 ∷ 1000 ∷ 1001 ∷ 9000 ∷ []

reserve_all-Spaced_example : Spaced 4445 (reserve_all 4445 (0 ∷ 0 ∷ []) calls)
reserve_all-Spaced_example = reserve_all-Spaced 4445 (0 ∷ 0 ∷ []) calls (omega arith)

-- The third call waits for the window of the first key.
starts : map (λ r. r.start) (reserve_all 4445 (0 ∷ 0 ∷ []) calls) ≡ 1000 ∷ 1000 ∷ 5445 ∷ 9000 ∷ []
unfolding reserve_all reserve_key soonest soonest_from
starts = refl

abbrev schedule : List Op
schedule = acquires 1 ∷ acquires 2 ∷ acquires 3 ∷ releases ∷ []

run-IsFair_example : IsFair 2 (1 ∷ 2 ∷ 3 ∷ []) (run (opened 2) schedule)
run-IsFair_example = run-IsFair 2 schedule

third_waits : (run (opened 2) schedule).granted ≡ 1 ∷ 2 ∷ 3 ∷ []
unfolding run step acquire acquire_with release release_to
third_waits = refl
