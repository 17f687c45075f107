-- ===== src/Sql/InMemory.antt =====
-- The interface can be met: a table that is the list of its rows, with the largest key as counter.
use xevos.Base.{
  ℕ, suc, ◌<◌, max, ◌≡◌, refl, Bool, true, false, not, Option, none, some, List, [], ◌∷◌, ◌++◌, map,
  any, keep, All, if◌then◌else◌, arith,
}
use xevos.Sql.{Sql}

module _ {R : Type 0} where
  abbrev pub insert_row : (R → Bool) → R → List R → Option (List R)
  insert_row clash r t = if any clash t then none else some (t ++ (r ∷ []))

  abbrev pub top_key : (R → ℕ) → List R → ℕ
  top_key key [] = 0
  top_key key (r ∷ rs) = max (key r) (top_key key rs)

  abbrev pub insert_auto_row : (R → ℕ) → (ℕ → R) → List R → ℕ × List R
  insert_auto_row key make t = (suc (top_key key t), t ++ (make (suc (top_key key t)) ∷ []))

  pub insert_row_clash :
      (clash : R → Bool) (r : R) (t : List R) → any clash t ≡ true → insert_row clash r t ≡ none
  insert_row_clash clash r t h = ground arith

  pub insert_row_fresh :
      (clash : R → Bool) (r : R) (t : List R)
      → any clash t ≡ false
      → (t' : List R) × (insert_row clash r t ≡ some t') × (t' ≡ t ++ (r ∷ []))
  insert_row_fresh clash r t h = (t ++ (r ∷ []), ground arith, refl)

  top_key_bounds : (key : R → ℕ) (n : ℕ) (t : List R) → top_key key t < n → All (λ r. key r < n) t
  top_key_bounds key n [] h = tt
  top_key_bounds key n (r ∷ rs) h = (omega arith, top_key_bounds key n rs (omega arith))

  pub insert_auto_row_key :
      (key : R → ℕ) (make : ℕ → R) (t : List R)
      → All (λ r. key r < (insert_auto_row key make t).0) t
  insert_auto_row_key key make t = top_key_bounds key _ t (omega arith)

instance abbrev pub list_sql : Sql
list_sql = record {
  Table = List;
  rows = λ t. t;
  insert = insert_row;
  insert_auto = insert_auto_row;
  update = λ cond set t. map (λ r. if cond r then set r else r) t;
  delete = λ cond t. keep (λ r. not (cond r)) t;
  insert_clash = insert_row_clash;
  insert_fresh = insert_row_fresh;
  insert_auto_rows = λ key make t. refl;
  insert_auto_key = insert_auto_row_key;
  rows-update = λ cond set t. refl;
  rows-delete = λ cond t. refl;
}
