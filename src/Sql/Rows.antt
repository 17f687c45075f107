-- ===== src/Sql/Rows.antt =====
-- What reading by key gives after a write by key, for rows as lists.
use xevos.Base.{
  ◌≡◌, ◌≢◌, refl, ap, Bool, false, not, Option, none, some, List, [], ◌∷◌, ◌++◌, map, any, keep,
  find, length, All, if◌then◌else◌, arith, Eq, ◌==◌,
}

module _ {ℓ κ} {R : Type ℓ} {K : Type κ} ⦃e : Eq K⦄ (key : R → K) where
  abbrev pub by_key : K → R → Bool
  by_key k r = key r == k

  -- `select … where key = k` with `.get()`
  abbrev pub get : K → List R → Option R
  get k rs = find (by_key k) rs

  abbrev pub set_where : K → (R → R) → List R → List R
  set_where k f rs = map (λ r. if by_key k r then f r else r) rs

  abbrev pub drop_where : K → List R → List R
  drop_where k rs = keep (λ r. not (by_key k r)) rs

  -- An update that keeps the key changes the row of that key and no other.
  pub get-set_where :
      (k j : K) (f : R → R) (rs : List R)
      → ((r : R) → key (f r) ≡ key r)
      → get j (set_where k f rs)
        ≡ (if k == j then elim (get j rs) [ none ↦ none | some r ↦ some (f r) ] else get j rs)
  get-set_where k j f [] h = ground arith
  get-set_where k j f (r ∷ rs) h = ground (arith, h r, get-set_where k j f rs h)

  pub get-drop_where :
      (k j : K) (rs : List R) → get j (drop_where k rs) ≡ (if k == j then none else get j rs)
  get-drop_where k j [] = ground arith
  get-drop_where k j (r ∷ rs) = ground (arith, get-drop_where k j rs)

  pub get-append_one :
      (j : K) (rs : List R) (r : R)
      → any (by_key (key r)) rs ≡ false
      → get j (rs ++ (r ∷ [])) ≡ (if key r == j then some r else get j rs)
  get-append_one j [] r h = ground arith
  get-append_one j (x ∷ rs) r h = ground (arith, get-append_one j rs r)

  pub get-append_kept :
      (j : K) (rs ss : List R) (r : R) → get j rs ≡ some r → get j (rs ++ ss) ≡ some r
  get-append_kept j [] ss r h = cc
  get-append_kept j (x ∷ rs) ss r h = ground (arith, get-append_kept j rs ss r)

  pub any_of-get : (k : K) (rs : List R) → get k rs ≡ none → any (by_key k) rs ≡ false
  any_of-get k [] h = refl
  any_of-get k (r ∷ rs) h = ground (arith, any_of-get k rs)

  pub get_key : (k : K) (rs : List R) (r : R) → get k rs ≡ some r → key r ≡ k
  get_key k [] r h = cc
  get_key k (x ∷ rs) r h = ground (arith, get_key k rs r)

  -- The two cases of an update at the first row.
  set_here : (k : K) (f : R → R) (r : R) → key r ≡ k → (if by_key k r then f r else r) ≡ f r
  set_here k f r h = ground arith

  set_not_here : (k : K) (f : R → R) (r : R) → key r ≢ k → (if by_key k r then f r else r) ≡ r
  set_not_here k f r h = ground arith

  pub set_where_hit :
      (k : K) (f : R → R) (r : R) (rs : List R)
      → key r ≡ k
      → set_where k f (r ∷ rs) ≡ f r ∷ set_where k f rs
  set_where_hit k f r rs h = ap (λ x. x ∷ set_where k f rs) (set_here k f r h)

  pub set_where_miss :
      (k : K) (f : R → R) (r : R) (rs : List R)
      → key r ≢ k
      → set_where k f (r ∷ rs) ≡ r ∷ set_where k f rs
  set_where_miss k f r rs h = ap (λ x. x ∷ set_where k f rs) (set_not_here k f r h)

  pub length-set_where : (k : K) (f : R → R) (rs : List R) → length (set_where k f rs) ≡ length rs
  length-set_where k f [] = refl
  length-set_where k f (r ∷ rs) = omega (arith, length-set_where k f rs)

  -- A predicate that the update keeps holds of all rows still.
  pub All-set_where {μ} :
      (P : R → Type μ) (k : K) (f : R → R) (rs : List R)
      → ((r : R) → P r → P (f r))
      → All P rs
      → All P (set_where k f rs)
  All-set_where P k f [] h a = tt
  All-set_where P k f (r ∷ rs) h a = ground (arith, h r a.0, All-set_where P k f rs h a.1)

  -- No two rows share a key.
  abbrev pub Unique : List R → Type κ
  Unique [] = Unit
  Unique (r ∷ rs) = All (λ s. key s ≢ key r) rs × Unique rs
