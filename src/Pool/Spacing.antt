-- ===== src/Pool/Spacing.antt =====
-- The reservations of one key are an interval apart, and a reservation takes the key that is free first.
use xevos.Base.{
  ℕ, zero, suc, ◌+◌, ◌≡◌, ◌≤◌, ◌<◌, refl, max, Bool, true, List, [], ◌∷◌, All, length, leb, ◌==◌,
  nat_eq, ℕ_discrete, if◌then◌else◌, arith,
}
use xevos.Pool.Keys.{at, set_at, soonest, soonest_from, Reservation, reserve_key, reserve_all}

-- Of two reservations of one key, the later starts an interval after the earlier.
abbrev pub apart_by : ℕ → Reservation → Reservation → Bool
apart_by interval r s = if r.key == s.key then leb (r.start + interval) s.start else true

abbrev pub Spaced : ℕ → List Reservation → Type 0
Spaced interval [] = Unit
Spaced interval (r ∷ rs) = All (λ s. apart_by interval r s ≡ true) rs × Spaced interval rs

soonest_from_bound :
    (j i v n : ℕ) (xs : List ℕ) → i < j → n ≡ j + length xs → soonest_from j i v xs < n
unfolding soonest_from
soonest_from_bound j i v n [] h e = omega (arith, h, e)
soonest_from_bound j i v n (x ∷ xs) h e = ground (
  arith,
  soonest_from_bound (suc j) j x n xs (omega arith) (omega (arith, e)),
  soonest_from_bound (suc j) i v n xs (omega (arith, h)) (omega (arith, e)),
)

soonest_bound : (free : List ℕ) → 1 ≤ length free → soonest free < length free
unfolding soonest
soonest_bound [] h = omega (arith, h)
soonest_bound (x ∷ xs) h = soonest_from_bound 1 0 x (suc (length xs)) xs (omega arith) (omega arith)

at-set_at : (i v : ℕ) (xs : List ℕ) → i < length xs → at i (set_at i v xs) ≡ v
at-set_at i v [] h = omega (arith, h)
at-set_at zero v (x ∷ xs) h = refl
at-set_at (suc i) v (x ∷ xs) h = at-set_at i v xs (omega (arith, h))

at-set_at_le : (i j v : ℕ) (xs : List ℕ) → at i xs ≤ v → at j xs ≤ at j (set_at i v xs)
at-set_at_le i j v [] h = omega arith
at-set_at_le zero zero v (x ∷ xs) h = h
at-set_at_le zero (suc j) v (x ∷ xs) h = omega arith
at-set_at_le (suc i) zero v (x ∷ xs) h = omega arith
at-set_at_le (suc i) (suc j) v (x ∷ xs) h = at-set_at_le i j v xs h

length-set_at : (i v : ℕ) (xs : List ℕ) → length (set_at i v xs) ≡ length xs
length-set_at i v [] = refl
length-set_at zero v (x ∷ xs) = refl
length-set_at (suc i) v (x ∷ xs) = omega (arith, length-set_at i v xs)

module _ (interval : ℕ) where
  later :
      (free free' : List ℕ) (rs : List Reservation)
      → ((k : ℕ) → at k free ≤ at k free')
      → All (λ s. at s.key free' ≤ s.start) rs
      → All (λ s. at s.key free ≤ s.start) rs
  later free free' [] h a = tt
  later free free' (r ∷ rs) h a = (omega (arith, h r.key, a.0), later free free' rs h a.1)

  -- No reservation starts before its key is free.
  reserve_all_after :
      (free nows : List ℕ) → All (λ s. at s.key free ≤ s.start) (reserve_all interval free nows)
  unfolding reserve_all reserve_key
  reserve_all_after free [] = tt
  reserve_all_after free (now ∷ rest) =
      let i = soonest free in
      let v = max now (at i free) + interval in
      (
        omega arith,
        later free (set_at i v free) _ (λ k. at-set_at_le i k v free (omega arith))
            (reserve_all_after (set_at i v free) rest),
      )

  apart_one :
      (free : List ℕ) (r s : Reservation)
      → at r.key free ≡ r.start + interval
      → at s.key free ≤ s.start
      → apart_by interval r s ≡ true
  apart_one free r s h a = elim (ℕ_discrete r.key s.key) [
    | yes e ↦ let a' : at r.key free ≤ s.start = rw e a in ground (arith, e, h, a')
    | no n ↦ ground (arith, n)
  ]

  apart_from :
      (free : List ℕ) (r : Reservation) (rs : List Reservation)
      → at r.key free ≡ r.start + interval
      → All (λ s. at s.key free ≤ s.start) rs
      → All (λ s. apart_by interval r s ≡ true) rs
  apart_from free r [] h a = tt
  apart_from free r (s ∷ rs) h a = (apart_one free r s h a.0, apart_from free r rs h a.1)

  -- With at least one key, and whatever the times of the calls, two reservations of one key are at
  -- least the interval apart.
  pub reserve_all-Spaced :
      (free nows : List ℕ) → 1 ≤ length free → Spaced interval (reserve_all interval free nows)
  unfolding reserve_all reserve_key
  reserve_all-Spaced free [] h = tt
  reserve_all-Spaced free (now ∷ rest) h =
      let i = soonest free in
      let v = max now (at i free) + interval in
      (
        apart_from (set_at i v free) (record { key = i; start = max now (at i free) }) _
            (at-set_at i v free (soonest_bound free h)) (reserve_all_after (set_at i v free) rest),
        reserve_all-Spaced (set_at i v free) rest (omega (arith, h, length-set_at i v free)),
      )
