-- ===== src/Pool/Slots.antt =====
-- `acquire` and `release` of packages/core/src/core/utils.ts. A waiter is its number; what is granted is
-- recorded in order. A call of `withModel` releases once, after it was granted.
use xevos.Base.{
  refl, subst, ℕ-cases, ℕ, zero, suc, ◌+◌, ◌≡◌, ◌⊎◌, inl, inr, List, [], ◌∷◌, ◌++◌, append_assoc,
  append-nil, sym, ◌∙◌, ap, arith,
}

pub record Slots : Type 0 where
  pub available : ℕ
  pub waiters : List ℕ
  -- the callers that were granted a slot, and how many of them have not released it
  pub granted : List ℕ
  pub in_flight : ℕ

pub data Op : Type 0 where
  acquires : ℕ → Op
  releases : Op

abbrev grant : Slots → ℕ → ℕ → List ℕ → Slots
grant s caller available waiters = record s {
  available = available;
  waiters = waiters;
  granted = s.granted ++ (caller ∷ []);
  in_flight = suc s.in_flight;
}

unfoldable pub acquire_with : ℕ → Slots → ℕ → Slots
acquire_with (suc n) s caller = grant s caller n s.waiters
acquire_with zero s caller = record s { waiters = s.waiters ++ (caller ∷ []) }

-- `acquire`
unfoldable pub acquire : Slots → ℕ → Slots
acquire s caller = acquire_with s.available s caller

unfoldable pub release_to : List ℕ → Slots → Slots
release_to [] s = record s { available = suc s.available }
release_to (w ∷ rest) s = grant s w s.available rest

-- `release`, by a call that is in flight
unfoldable pub release : Slots → Slots
release s = elim s.in_flight [
  | zero ↦ s
  | suc n ↦ release_to s.waiters (record s { in_flight = n })
]

unfoldable pub step : Slots → Op → Slots
step s (acquires caller) = acquire s caller
step s releases = release s

unfoldable pub run : Slots → List Op → Slots
run s [] = s
run s (op ∷ ops) = run (step s op) ops

-- `available = Math.max(1, MODEL_MAX_CONCURRENCY)`
abbrev pub opened : ℕ → Slots
opened limit = record { available = limit; waiters = []; granted = []; in_flight = 0 }

abbrev pub arrivals : List Op → List ℕ
arrivals [] = []
arrivals (acquires c ∷ ops) = c ∷ arrivals ops
arrivals (releases ∷ ops) = arrivals ops

-- After the callers have arrived in this order.
pub record IsFair (limit : ℕ) (callers : List ℕ) (s : Slots) : Type 0 where
  pub conserved : s.available + s.in_flight ≡ limit
  pub busy : (s.available ≡ 0) ⊎ (s.waiters ≡ [])
  pub ordered : s.granted ++ s.waiters ≡ callers

acquire-IsFair :
    (limit c n : ℕ) (callers : List ℕ) (s : Slots)
    → s.available ≡ n
    → IsFair limit callers s
    → IsFair limit (callers ++ (c ∷ [])) (acquire_with n s c)
unfolding acquire_with
acquire-IsFair limit c zero callers s e v = record {
  conserved = v.conserved;
  busy = inl e;
  ordered = sym (append_assoc s.granted s.waiters (c ∷ [])) ∙ ap (λ l. l ++ (c ∷ [])) v.ordered;
}
acquire-IsFair limit c (suc n) callers s e v =
    let idle : s.waiters ≡ [] = ground (arith, e, v.busy) in
    let all : s.granted ≡ callers =
      sym (append-nil s.granted) ∙ (ap (λ w. s.granted ++ w) (sym idle) ∙ v.ordered) in
    record {
      conserved = omega (arith, v.conserved, e);
      busy = inr idle;
      ordered =
          ap (λ w. (s.granted ++ (c ∷ [])) ++ w) idle
          ∙ (append-nil (s.granted ++ (c ∷ [])) ∙ ap (λ l. l ++ (c ∷ [])) all);
    }

release_to-IsFair :
    (limit n : ℕ) (callers ws : List ℕ) (s : Slots)
    → s.in_flight ≡ suc n
    → s.waiters ≡ ws
    → IsFair limit callers s
    → IsFair limit callers (release_to ws (record s { in_flight = n }))
unfolding release_to
release_to-IsFair limit n callers [] s e w v = record {
  conserved = omega (arith, v.conserved, e);
  busy = inr w;
  ordered = v.ordered;
}
release_to-IsFair limit n callers (c ∷ ws) s e w v = record {
  conserved = omega (arith, v.conserved, e);
  busy = inl (ground (arith, w, v.busy));
  ordered = append_assoc s.granted (c ∷ []) ws ∙ (ap (λ l. s.granted ++ l) (sym w) ∙ v.ordered);
}

release-IsFair :
    (limit : ℕ) (callers : List ℕ) (s : Slots)
    → IsFair limit callers s
    → IsFair limit callers (release s)
unfolding release
release-IsFair limit callers s v = elim (ℕ-cases s.in_flight) [
  | inl e ↦ rw (e, release) v
  | inr (n, e) ↦ rw (e, release) (release_to-IsFair limit n callers s.waiters s e refl v)
]

run-keeps :
    (limit : ℕ) (callers : List ℕ) (s : Slots) (ops : List Op)
    → IsFair limit callers s
    → IsFair limit (callers ++ arrivals ops) (run s ops)
unfolding run step acquire
run-keeps limit callers s [] v = subst (λ l. IsFair limit l s) (sym (append-nil callers)) v
run-keeps limit callers s (acquires c ∷ ops) v =
    subst (λ l. IsFair limit l (run (acquire s c) ops))
      (append_assoc callers (c ∷ []) (arrivals ops))
      (run-keeps limit (callers ++ (c ∷ [])) (acquire s c) ops
        (acquire-IsFair limit c s.available callers s refl v))
run-keeps limit callers s (releases ∷ ops) v =
    run-keeps limit callers (release s) ops (release-IsFair limit callers s v)

-- Over any schedule of calls and releases, the free slots and the calls in flight add up to the limit,
-- no slot is free while a caller waits, and callers are granted slots in the order in which they came.
pub run-IsFair : (limit : ℕ) (ops : List Op) → IsFair limit (arrivals ops) (run (opened limit) ops)
run-IsFair limit ops =
    run-keeps limit [] (opened limit) ops
      (record { conserved = omega arith; busy = inr refl; ordered = refl })
