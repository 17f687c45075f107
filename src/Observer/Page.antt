-- ===== src/Observer/Page.antt =====
-- One page of a descending history, as `pageTasks` and `pageMessages` of observer/queries.ts cut it, and
-- the walk of a client that follows `nextCursor`.
use xevos.Base.{
  ℕ, zero, suc, Bool, true, Option, none, some, List, [], ◌∷◌, ◌++◌, keep, take, length, ltb,
  if◌then◌else◌,
}
use xevos.Web.Keys.{reverse}
use xevos.Sql.Order.{order_by}

-- `Page<T>`
pub record Page {ℓ} (A : Type ℓ) : Type ℓ where
  pub items : List A
  pub next_cursor : Option ℕ

module _ {ℓ} {R : Type ℓ} (key : R → ℕ) where
  -- `before === null ? undefined : key < before`
  abbrev pub is_before : Option ℕ → R → Bool
  is_before none r = true
  is_before (some b) r = ltb (key r) b

  -- `rows[rows.length - 1]`
  abbrev pub last : List R → Option R
  last [] = none
  last (r ∷ []) = some r
  last (r ∷ s ∷ rs) = last (s ∷ rs)

  -- `where … order by key desc limit n`
  unfoldable pub newest : Option ℕ → ℕ → List R → List R
  newest before limit rows = take limit (reverse (order_by key (keep (is_before before) rows)))

  abbrev pub page_at : List R → Option R → Option (Page R)
  page_at found none = none
  page_at found (some r) = some (record { items = found; next_cursor = some (key r) })

  -- The page; `none` is the exception of a read past the end, which a limit of 0 meets.
  unfoldable pub page : Option ℕ → ℕ → List R → Option (Page R)
  page before limit rows =
      let found = newest before limit rows in
      if ltb (length found) limit
      then some (record { items = found; next_cursor = none })
      else page_at found (last found)

  -- The pages that a client reads from a cursor on, with at most `fuel` requests: the items it has seen,
  -- or `none` when a request failed or the fuel ran out.
  unfoldable pub follow : ℕ → Option ℕ → ℕ → List R → Option (List R)
  follow zero before limit rows = none
  follow (suc fuel) before limit rows = elim (page before limit rows) [
    | none ↦ none
    | some p ↦ elim p.next_cursor [
      | none ↦ some p.items
      | some c ↦ elim (follow fuel (some c) limit rows) [
        | none ↦ none
        | some older ↦ some (p.items ++ older)
      ]
    ]
  ]
