-- ===== src/Sql/Order.antt =====
-- `order by key asc`, and tables whose keys ascend already.
use xevos.Base.{
  ℕ, ◌<◌, ◌≡◌, refl, ap, ◌∙◌, subst, nat_eq, Bool, List, [], ◌∷◌, ◌++◌, keep, All, leb,
  if◌then◌else◌, arith,
}
use xevos.Sql.Rows.{set_where, by_key}

module _ {ℓ} {R : Type ℓ} (key : R → ℕ) where
  abbrev pub insert_by : R → List R → List R
  insert_by r [] = r ∷ []
  insert_by r (s ∷ rs) =
      let rest = insert_by r rs in if leb (key r) (key s) then r ∷ s ∷ rs else s ∷ rest

  abbrev pub order_by : List R → List R
  order_by [] = []
  order_by (r ∷ rs) = insert_by r (order_by rs)

  -- Every key is above those before it.
  abbrev pub Ascending : List R → Type 0
  Ascending [] = Unit {0}
  Ascending (r ∷ rs) = All (λ s. key r < key s) rs × Ascending rs

  insert_by_below : (r : R) (rs : List R) → All (λ s. key r < key s) rs → insert_by r rs ≡ r ∷ rs
  insert_by_below r [] h = refl
  insert_by_below r (s ∷ rs) h = ground arith

  pub order_by-Ascending : (rs : List R) → Ascending rs → order_by rs ≡ rs
  order_by-Ascending [] h = refl
  order_by-Ascending (r ∷ rs) h =
      ap (insert_by r) (order_by-Ascending rs h.1) ∙ insert_by_below r rs h.0

  All-keep_above :
      (n : ℕ) (p : R → Bool) (rs : List R)
      → All (λ s. n < key s) rs
      → All (λ s. n < key s) (keep p rs)
  All-keep_above n p [] h = tt
  All-keep_above n p (r ∷ rs) h = ground (arith, All-keep_above n p rs h.1)

  pub keep-Ascending : (p : R → Bool) (rs : List R) → Ascending rs → Ascending (keep p rs)
  keep-Ascending p [] h = tt
  keep-Ascending p (r ∷ rs) h =
      ground (arith, keep-Ascending p rs h.1, All-keep_above (key r) p rs h.0)

  All-above_append :
      (rs : List R) (n : ℕ) (r : R)
      → All (λ s. n < key s) rs
      → n < key r
      → All (λ s. n < key s) (rs ++ (r ∷ []))
  All-above_append [] n r h b = (b, tt)
  All-above_append (s ∷ rs) n r h b = (h.0, All-above_append rs n r h.1 b)

  pub Ascending-append_one :
      (rs : List R) (r : R)
      → Ascending rs
      → All (λ s. key s < key r) rs
      → Ascending (rs ++ (r ∷ []))
  Ascending-append_one [] r h b = (tt, tt)
  Ascending-append_one (s ∷ rs) r h b =
      (All-above_append rs (key s) r h.0 b.0, Ascending-append_one rs r h.1 b.1)

  All-set_above :
      (n k : ℕ) (f : R → R) (rs : List R)
      → ((r : R) → key (f r) ≡ key r)
      → All (λ s. n < key s) rs
      → All (λ s. n < key s) (set_where key k f rs)
  All-set_above n k f [] h a = tt
  All-set_above n k f (r ∷ rs) h a = ground (arith, h r, All-set_above n k f rs h a.1)

  -- An update that keeps the keys keeps the order.
  pub set_where-Ascending :
      (k : ℕ) (f : R → R) (rs : List R)
      → ((r : R) → key (f r) ≡ key r)
      → Ascending rs
      → Ascending (set_where key k f rs)
  set_where-Ascending k f [] h a = tt
  set_where-Ascending k f (r ∷ rs) h a =
      let same : key r ≡ key (if by_key key k r then f r else r) = ground (arith, h r) in
      (
        subst (λ n. All (λ s. n < key s) (set_where key k f rs)) same
            (All-set_above (key r) k f rs h a.0),
        set_where-Ascending k f rs h a.1,
      )
