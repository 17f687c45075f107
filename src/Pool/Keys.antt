-- ===== src/Pool/Keys.antt =====
-- `reserveKey` of packages/core/src/core/utils.ts. `keyNextFreeAt` is a list, of at least one key;
-- `MIN_INTERVAL_MS` is the parameter `interval`, which the environment sets.
use xevos.Base.{ℕ, zero, suc, ◌+◌, max, List, [], ◌∷◌, ltb, if◌then◌else◌}

-- `keyNextFreeAt[i]`; an index out of range is not read.
abbrev pub at : ℕ → List ℕ → ℕ
at i [] = 0
at zero (x ∷ xs) = x
at (suc i) (x ∷ xs) = at i xs

abbrev pub set_at : ℕ → ℕ → List ℕ → List ℕ
set_at i v [] = []
set_at zero v (x ∷ xs) = v ∷ xs
set_at (suc i) v (x ∷ xs) = x ∷ set_at i v xs

-- The loop over `j`: the best index so far is `i`, whose time is `v`.
unfoldable pub soonest_from : ℕ → ℕ → ℕ → List ℕ → ℕ
soonest_from j i v [] = i
soonest_from j i v (x ∷ xs) =
    let better = soonest_from (suc j) j x xs in
    let rest = soonest_from (suc j) i v xs in if ltb x v then better else rest

unfoldable pub soonest : List ℕ → ℕ
soonest [] = 0
soonest (x ∷ xs) = soonest_from 1 0 x xs

-- A request on a key, at the time at which its window opens.
pub record Reservation : Type 0 where
  pub key : ℕ
  pub start : ℕ

module _ (interval : ℕ) where
  -- `reserveKey` at the time `now`; the caller sleeps until `start`.
  unfoldable pub reserve_key : List ℕ → ℕ → Reservation × List ℕ
  reserve_key free now =
      let i = soonest free in
      let earliest = max now (at i free) in
      (record { key = i; start = earliest }, set_at i (earliest + interval) free)

  -- Calls in the order in which they are made, each at its time.
  unfoldable pub reserve_all : List ℕ → List ℕ → List Reservation
  reserve_all free [] = []
  reserve_all free (now ∷ rest) =
      let (r, free') = reserve_key free now in r ∷ reserve_all free' rest
