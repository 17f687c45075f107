-- ===== src/Web/Keys.antt =====
-- Lists without two elements of one key, under the operations that the client's reducer uses.
use xevos.Base.{
  true, ◌≡◌, ◌≢◌, subst, refl, sym, Bool, false, not, none, some, List, [], ◌∷◌, ◌++◌, any, keep,
  All, All-keep, All-append, arith, Eq, ◌==◌, if◌then◌else◌,
}
use xevos.Sql.Rows.{by_key, get, Unique}

-- `[...xs].reverse()`
abbrev pub reverse {ℓ} : {A : Type ℓ} → List A → List A
reverse [] = []
reverse (x ∷ xs) = reverse xs ++ (x ∷ [])

module _ {ℓ κ} {R : Type ℓ} {K : Type κ} ⦃e : Eq K⦄ (key : R → K) where
  -- Whether the key is among those of the list.
  abbrev pub has : K → List R → Bool
  has k rs = any (by_key key k) rs

  -- `next[i] = r` at the first index of its key
  abbrev pub replace_first : R → List R → List R
  replace_first r [] = []
  replace_first r (x ∷ xs) = if by_key key (key r) x then r ∷ xs else x ∷ replace_first r xs

  -- The elements whose key is not in the list.
  abbrev pub fresh_for : List R → List R → List R
  fresh_for rs items = keep (λ r. not (has (key r) rs)) items

  pub has-All : (k : K) (rs : List R) → has k rs ≡ false → All (λ s. key s ≢ k) rs
  has-All k [] h = tt
  has-All k (r ∷ rs) h = ground (arith, has-All k rs, h)

  pub All-has : (k : K) (rs : List R) → All (λ s. key s ≢ k) rs → has k rs ≡ false
  All-has k [] h = refl
  All-has k (r ∷ rs) h = ground (arith, All-has k rs h.1, h.0)

  replace_All :
      (k : K) (r : R) (rs : List R)
      → key r ≢ k
      → All (λ s. key s ≢ k) rs
      → All (λ s. key s ≢ k) (replace_first r rs)
  replace_All k r [] n h = tt
  replace_All k r (x ∷ xs) n h = ground (arith, n, h.0, h.1, replace_All k r xs n h.1)

  same_All : (k l : K) (rs : List R) → k ≡ l → All (λ s. key s ≢ k) rs → All (λ s. key s ≢ l) rs
  same_All k l rs e h = rw (sym e) h

  replace_hit : (r x : R) (xs : List R) → key x ≡ key r → replace_first r (x ∷ xs) ≡ r ∷ xs
  replace_hit r x xs h = ground (arith, h)

  replace_miss :
      (r x : R) (xs : List R) → key x ≢ key r → replace_first r (x ∷ xs) ≡ x ∷ replace_first r xs
  replace_miss r x xs h = ground (arith, h)

  apart :
      (x : R) (xs ys : List R)
      → All (λ y. has (key y) (x ∷ xs) ≡ false) ys
      → All (λ y. key y ≢ key x) ys × All (λ y. has (key y) xs ≡ false) ys
  apart x xs [] h = (tt, tt)
  apart x xs (y ∷ ys) h =
      let rest = apart x xs ys h.1 in ((ground (arith, h.0), rest.0), (ground (arith, h.0), rest.1))

  pub replace-Unique : (r : R) (rs : List R) → Unique key rs → Unique key (replace_first r rs)
  replace-Unique r [] h = tt
  replace-Unique r (x ∷ xs) h = elim (e.dec (key x) (key r)) [
    | yes same ↦
        subst (Unique key) (sym (replace_hit r x xs same))
          (same_All (key x) (key r) xs same h.0, h.1)
    | no other ↦
        subst (Unique key) (sym (replace_miss r x xs other))
          (replace_All (key x) r xs (λ p. other (sym p)) h.0, replace-Unique r xs h.1)
  ]

  pub get-replace_first :
      (k : K) (r : R) (rs : List R)
      → get key k (replace_first r rs)
        ≡ (if key r == k then (if has (key r) rs then some r else none) else get key k rs)
  get-replace_first k r [] = ground arith
  get-replace_first k r (x ∷ xs) = ground (arith, get-replace_first k r xs)

  pub append-Unique :
      (xs ys : List R)
      → Unique key xs
      → Unique key ys
      → All (λ y. has (key y) xs ≡ false) ys
      → Unique key (xs ++ ys)
  append-Unique [] ys hx hy h = hy
  append-Unique (x ∷ xs) ys hx hy h =
      let far = apart x xs ys h in
      (All-append (λ s. key s ≢ key x) xs ys hx.0 far.0, append-Unique xs ys hx.1 hy far.1)

  All-reverse : (k : K) (rs : List R) → All (λ s. key s ≢ k) rs → All (λ s. key s ≢ k) (reverse rs)
  All-reverse k [] h = tt
  All-reverse k (r ∷ rs) h =
      All-append (λ s. key s ≢ k) (reverse rs) (r ∷ []) (All-reverse k rs h.1) (h.0, tt)

  pub reverse-Unique : (rs : List R) → Unique key rs → Unique key (reverse rs)
  reverse-Unique [] h = tt
  reverse-Unique (r ∷ rs) h =
      append-Unique (reverse rs) (r ∷ []) (reverse-Unique rs h.1) (tt, tt)
        (All-has (key r) (reverse rs) (All-reverse (key r) rs h.0), tt)

  pub fresh_All : (rs items : List R) → All (λ y. has (key y) rs ≡ false) (fresh_for rs items)
  fresh_All rs [] = tt
  fresh_All rs (i ∷ items) = ground (arith, fresh_All rs items)

  pub keep-Unique : (p : R → Bool) (rs : List R) → Unique key rs → Unique key (keep p rs)
  keep-Unique p [] h = tt
  keep-Unique p (r ∷ rs) h =
      ground (arith, All-keep (λ s. key s ≢ key r) p rs h.0, keep-Unique p rs h.1)

  -- No element of a list is among those that are fresh for it.
  fresh_not : (k : K) (rs items : List R) → has k rs ≡ true → has k (fresh_for rs items) ≡ false
  fresh_not k rs [] h = refl
  fresh_not k rs (i ∷ items) h = ground (arith, h, fresh_not k rs items h)

  has_more :
      (x : R) (rs sub : List R)
      → All (λ r. has (key r) rs ≡ true) sub
      → All (λ r. has (key r) (x ∷ rs) ≡ true) sub
  has_more x rs [] h = tt
  has_more x rs (y ∷ ys) h = (ground (arith, h.0), has_more x rs ys h.1)

  has_own : (rs : List R) → All (λ r. has (key r) rs ≡ true) rs
  has_own [] = tt
  has_own (x ∷ rs) = (ground arith, has_more x rs rs (has_own rs))

  fresh_none :
      (rs items sub : List R)
      → All (λ r. has (key r) rs ≡ true) sub
      → All (λ r. has (key r) (fresh_for rs items) ≡ false) sub
  fresh_none rs items [] h = tt
  fresh_none rs items (y ∷ ys) h = (fresh_not (key y) rs items h.0, fresh_none rs items ys h.1)

  pub fresh_sym : (rs items : List R) → All (λ r. has (key r) (fresh_for rs items) ≡ false) rs
  fresh_sym rs items = fresh_none rs items rs (has_own rs)
