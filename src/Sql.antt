-- ===== src/Sql.antt =====
-- SQLite behind drizzle, which the program calls and does not implement: the statements that the
-- repositories issue, and what SQL says of them. A table is seen through its rows, in row order.
pub mod Rows
pub mod Order
pub mod InMemory
use xevos.Base.{
  ℕ, ◌<◌, ◌≡◌, Bool, true, false, not, Option, none, some, List, [], ◌∷◌, ◌++◌, map, any, keep, All,
  if◌then◌else◌,
}

pub record Sql : Type 1 where
  pub Table : Type 0 → Type 0
  -- `select().from(t).all()`
  pub rows : {R : Type 0} → Table R → List R
  -- `insert(t).values(r).run()`, refused by the primary key where `clash` holds of a row
  pub insert : {R : Type 0} → (R → Bool) → R → Table R → Option (Table R)
  -- `insert(t).values(…).returning()` into a table whose integer key is AUTOINCREMENT
  pub insert_auto : {R : Type 0} → (R → ℕ) → (ℕ → R) → Table R → ℕ × Table R
  -- `update(t).set(…).where(…).run()`
  pub update : {R : Type 0} → (R → Bool) → (R → R) → Table R → Table R
  -- `delete(t).where(…).run()`
  pub delete : {R : Type 0} → (R → Bool) → Table R → Table R
  pub insert_clash :
      {R : Type 0} (clash : R → Bool) (r : R) (t : Table R)
      → any clash (rows t) ≡ true
      → insert clash r t ≡ none
  pub insert_fresh :
      {R : Type 0} (clash : R → Bool) (r : R) (t : Table R)
      → any clash (rows t) ≡ false
      → (t' : Table R) × (insert clash r t ≡ some t') × (rows t' ≡ rows t ++ (r ∷ []))
  pub insert_auto_rows :
      {R : Type 0} (key : R → ℕ) (make : ℕ → R) (t : Table R)
      → rows (insert_auto key make t).1 ≡ rows t ++ (make (insert_auto key make t).0 ∷ [])
  -- A generated key is above every key in the table.
  pub insert_auto_key :
      {R : Type 0} (key : R → ℕ) (make : ℕ → R) (t : Table R)
      → All (λ r. key r < (insert_auto key make t).0) (rows t)
  pub rows-update :
      {R : Type 0} (cond : R → Bool) (set : R → R) (t : Table R)
      → rows (update cond set t) ≡ map (λ r. if cond r then set r else r) (rows t)
  pub rows-delete :
      {R : Type 0} (cond : R → Bool) (t : Table R)
      → rows (delete cond t) ≡ keep (λ r. not (cond r)) (rows t)
