-- ===== src/Observer/Paging.antt =====
-- Following `nextCursor`: the pages of a table whose keys ascend put together.
use xevos.Base.{
  ℕ, zero, suc, ◌≡◌, ◌≤◌, ◌<◌, ◌-◌, refl, sym, ◌∙◌, ap, subst, Bool, false, Bool-cases, Option,
  none, some, inl, inr, List, [], ◌∷◌, ◌++◌, append-nil, keep, keep-append, take, drop, length,
  length-append, length-take, ltb, All, All-append, arith,
}
use xevos.Web.Keys.{reverse}
use xevos.Sql.Order.{Ascending, order_by-Ascending, keep-Ascending}
use xevos.Observer.Page.{is_before, last, newest, page, follow}

module _ {ℓ} {R : Type ℓ} where
  pub length-reverse : (xs : List R) → length (reverse xs) ≡ length xs
  length-reverse [] = refl
  length-reverse (x ∷ xs) = omega (arith, length-append (reverse xs) (x ∷ []), length-reverse xs)

  take_all : (n : ℕ) (xs : List R) → length (take n xs) < n → take n xs ≡ xs
  take_all zero xs h = absurd (omega (arith, h))
  take_all (suc n) [] h = refl
  take_all (suc n) (x ∷ xs) h = ap (λ t. x ∷ t) (take_all n xs (omega (arith, h)))

  take-drop : (n : ℕ) (xs : List R) → take n xs ++ drop n xs ≡ xs
  take-drop zero xs = refl
  take-drop (suc n) [] = refl
  take-drop (suc n) (x ∷ xs) = ap (λ t. x ∷ t) (take-drop n xs)

  length-drop : (n : ℕ) (xs : List R) → length (drop n xs) ≡ length xs - n
  length-drop zero xs = omega arith
  length-drop (suc n) [] = omega arith
  length-drop (suc n) (x ∷ xs) = omega (arith, length-drop n xs)

  keep-reverse : (p : R → Bool) (rs : List R) → reverse (keep p rs) ≡ keep p (reverse rs)
  keep-reverse p [] = refl
  keep-reverse p (r ∷ rs) = ground (
    arith,
    keep-append p (reverse rs) (r ∷ []),
    keep-reverse p rs,
    append-nil (keep p (reverse rs)),
  )

module _ {R : Type 0} (key : R → ℕ) where
  -- Every key is below those before it.
  abbrev Descending : List R → Type 0
  Descending [] = Unit {0}
  Descending (r ∷ rs) = All (λ s. key s < key r) rs × Descending rs

  Descending-append_one :
      (rs : List R) (r : R)
      → Descending rs
      → All (λ s. key r < key s) rs
      → Descending (rs ++ (r ∷ []))
  Descending-append_one [] r h b = (tt, tt)
  Descending-append_one (s ∷ rs) r h b = (
    All-append (λ q. key q < key s) rs (r ∷ []) h.0 (b.0, tt),
    Descending-append_one rs r h.1 b.1,
  )

  All-reverse : (P : R → Type 0) (rs : List R) → All P rs → All P (reverse rs)
  All-reverse P [] h = tt
  All-reverse P (r ∷ rs) h = All-append P (reverse rs) (r ∷ []) (All-reverse P rs h.1) (h.0, tt)

  reverse-Descending : (rs : List R) → Ascending key rs → Descending (reverse rs)
  reverse-Descending [] h = tt
  reverse-Descending (r ∷ rs) h =
      Descending-append_one (reverse rs) r (reverse-Descending rs h.1)
        (All-reverse (λ s. key r < key s) rs h.0)

  keep_below :
      (c : ℕ) (rs : List R) → All (λ s. key s < c) rs → keep (is_before key (some c)) rs ≡ rs
  keep_below c [] h = refl
  keep_below c (r ∷ rs) h = ground (arith, keep_below c rs h.1, h.0)

  keep_self :
      (r : R) (rs : List R)
      → All (λ s. key s < key r) rs
      → keep (is_before key (some (key r))) (r ∷ rs) ≡ rs
  keep_self r rs h = ground (arith, keep_below (key r) rs h)

  keep_above :
      (x : R) (rs : List R) (r : R)
      → key r < key x
      → keep (is_before key (some (key r))) (x ∷ rs) ≡ keep (is_before key (some (key r))) rs
  keep_above x rs r h = ground (arith, h)

  last_All :
      (P : R → Type 0) (n : ℕ) (rs : List R) (r : R)
      → All P rs
      → last key (take n rs) ≡ some r
      → P r
  last_All P zero rs r h e = absurd (cc e)
  last_All P (suc n) [] r h e = absurd (cc e)
  last_All P (suc zero) (x ∷ xs) r h e = subst P (ground (arith, e)) h.0
  last_All P (suc (suc n)) (x ∷ []) r h e = subst P (ground (arith, e)) h.0
  last_All P (suc (suc n)) (x ∷ y ∷ ys) r h e = last_All P (suc n) (y ∷ ys) r h.1 e

  -- What is before the last row of a page is what the page left.
  keep-last :
      (n : ℕ) (rs : List R) (r : R)
      → Descending rs
      → last key (take (suc n) rs) ≡ some r
      → suc n ≤ length rs
      → keep (is_before key (some (key r))) rs ≡ drop (suc n) rs
  keep-last n [] r h e m = absurd (cc e)
  keep-last zero (x ∷ xs) r h e m =
      subst (λ q. keep (is_before key (some (key q))) (x ∷ xs) ≡ xs) (ground (arith, e))
        (keep_self x xs h.0)
  keep-last (suc n) (x ∷ []) r h e m = absurd (omega (arith, m))
  keep-last (suc n) (x ∷ y ∷ ys) r h e m =
      let above = last_All (λ s. key s < key x) (suc n) (y ∷ ys) r h.0 e in
      let rest = keep-last n (y ∷ ys) r h.1 e (omega (arith, m)) in
      keep_above x (y ∷ ys) r above ∙ rest

  -- A cursor that is not above another one.
  abbrev Below : ℕ → Option ℕ → Type 0
  Below c none = Unit
  Below c (some b) = c ≤ b

  keep_nested :
      (b : Option ℕ) (c : ℕ) (rs : List R)
      → Below c b
      → keep (is_before key (some c)) (keep (is_before key b) rs) ≡ keep (is_before key (some c)) rs
  keep_nested none c [] h = refl
  keep_nested (some b) c [] h = refl
  keep_nested none c (r ∷ rs) h = ground (arith, keep_nested none c rs h)
  keep_nested (some b) c (r ∷ rs) h = ground (arith, keep_nested (some b) c rs h, h)

  keep-Below : (b : Option ℕ) (rs : List R) → All (λ s. Below (key s) b) (keep (is_before key b) rs)
  keep-Below b [] = tt
  keep-Below none (r ∷ rs) = (tt, keep-Below none rs)
  keep-Below (some b) (r ∷ rs) = ground (arith, keep-Below (some b) rs)

  -- What a client at a cursor has not seen, newest first.
  abbrev pub unseen : Option ℕ → List R → List R
  unseen before rows = reverse (keep (is_before key before) rows)

  keep-none : (rows : List R) → keep (is_before key none) rows ≡ rows
  keep-none [] = refl
  keep-none (r ∷ rows) = ap (λ t. r ∷ t) (keep-none rows)

  -- Without a cursor, everything is unseen.
  pub unseen-none : (rows : List R) → unseen none rows ≡ reverse rows
  unseen-none rows = ap reverse (keep-none rows)

  newest-eq :
      (before : Option ℕ) (limit : ℕ) (rows : List R)
      → Ascending key rows
      → newest key before limit rows ≡ take limit (unseen before rows)
  unfolding newest
  newest-eq before limit rows h =
      ap (λ t. take limit (reverse t))
        (order_by-Ascending key _ (keep-Ascending key (is_before key before) rows h))

  last-some :
      (n : ℕ) (rs : List R)
      → n < length (take (suc n) rs)
      → (r : R) × (last key (take (suc n) rs) ≡ some r)
  last-some n [] h = absurd (omega (arith, h))
  last-some zero (x ∷ xs) h = (x, refl)
  last-some (suc n) (x ∷ []) h = absurd (omega (arith, h))
  last-some (suc n) (x ∷ y ∷ ys) h = last-some n (y ∷ ys) (omega (arith, h))

  -- After a full page, its last key leaves what the page did not show.
  unseen_next :
      (before : Option ℕ) (n : ℕ) (rows : List R) (r : R)
      → Ascending key rows
      → last key (take (suc n) (unseen before rows)) ≡ some r
      → suc n ≤ length (unseen before rows)
      → unseen (some (key r)) rows ≡ drop (suc n) (unseen before rows)
  unseen_next before n rows r h e m =
      let kept = keep (is_before key before) rows in
      let below =
        last_All (λ s. Below (key s) before) (suc n) (reverse kept) r
          (All-reverse _ kept (keep-Below before rows)) e in
      ap reverse (sym (keep_nested before (key r) rows below))
      ∙ (keep-reverse (is_before key (some (key r))) kept
          ∙ keep-last n (reverse kept) r
              (reverse-Descending kept (keep-Ascending key (is_before key before) rows h)) e m)

  -- A full page, and then the older rows.
  follow_full :
      (fuel : ℕ) (before : Option ℕ) (n : ℕ) (rows : List R) (r : R)
      → Ascending key rows
      → last key (take (suc n) (unseen before rows)) ≡ some r
      → ltb (length (take (suc n) (unseen before rows))) (suc n) ≡ false
      → unseen (some (key r)) rows ≡ drop (suc n) (unseen before rows)
      → follow key fuel (some (key r)) (suc n) rows ≡ some (unseen (some (key r)) rows)
      → follow key (suc fuel) before (suc n) rows ≡ some (unseen before rows)
  unfolding follow page
  follow_full fuel before n rows r h e full next older =
      let xs = unseen before rows in
      rw (newest-eq before (suc n) rows h, full, e, older, follow)
        (ap some (ap (λ t. take (suc n) xs ++ t) next ∙ take-drop (suc n) xs))

  fewer :
      (before : Option ℕ) (n : ℕ) (rows : List R) (fuel : ℕ) (r : R)
      → unseen (some (key r)) rows ≡ drop (suc n) (unseen before rows)
      → length (unseen before rows) < suc fuel
      → suc n ≤ length (unseen before rows)
      → length (unseen (some (key r)) rows) < fuel
  fewer before n rows fuel r next m k =
      omega (arith, ap length next, length-drop (suc n) (unseen before rows), m, k)

  -- With a limit that is not 0, and a request for each unseen row and one more, a client that follows
  -- `nextCursor` through a table whose keys ascend sees every row before its cursor once, newest first.
  pub follow-unseen :
      (fuel : ℕ) (before : Option ℕ) (n : ℕ) (rows : List R)
      → Ascending key rows
      → length (unseen before rows) < fuel
      → follow key fuel before (suc n) rows ≡ some (unseen before rows)
  unfolding follow page
  follow-unseen zero before n rows h m = absurd (omega (arith, m))
  follow-unseen (suc fuel) before n rows h m =
      let xs = unseen before rows in
      let shown = newest-eq before (suc n) rows h in
      elim (Bool-cases (ltb (length (take (suc n) xs)) (suc n))) [
        | inl short ↦ ground (arith, shown, short, take_all (suc n) xs)
        | inr full ↦
            let long : n < length (take (suc n) xs) = ground (arith, full) in
            let (r, e) = last-some n xs long in
            let m' : suc n ≤ length xs = omega (arith, long, length-take (suc n) xs) in
            let next = unseen_next before n rows r h e m' in
            follow_full fuel before n rows r h e full next
              (follow-unseen fuel (some (key r)) n rows h (fewer before n rows fuel r next m m'))
      ]
