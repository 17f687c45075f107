-- ===== src/Db/Counters.antt =====
-- The allocation of readable ids: the read, then update-or-insert, that `createTask`, `createAgent`
-- and `archive` each make inside their transaction.
use xevos.Base.{
  ℕ, suc, ◌≡◌, refl, Option, none, some, List, if◌then◌else◌, arith, ◌==◌, inl, inr, Option-cases,
}
use xevos.Sql.{Sql}
use xevos.Sql.Rows.{by_key, get, get-set_where, get-append_one, any_of-get}
use xevos.Db.{CounterKey, counter_key_eq, Counter}

abbrev pub counter_key : Counter → CounterKey
counter_key c = c.key

-- The value that a key has, as the rows show it; 0 for a key with no row.
abbrev pub counter_value : CounterKey → List Counter → ℕ
counter_value k rs = elim (get counter_key k rs) [ none ↦ 0 | some c ↦ c.value ]

module _ ⦃sql : Sql⦄ where
  unfoldable pub next_id : CounterKey → sql.Table Counter → Option (ℕ × sql.Table Counter)
  next_id k t = elim (get counter_key k (sql.rows t)) [
    | some c ↦
        some
          (suc c.value, sql.update (by_key counter_key k) (λ r. record r { value = suc c.value }) t)
    | none ↦ elim (sql.insert (by_key counter_key k) (record { key = k; value = 1 }) t) [
      | none ↦ none
      | some t' ↦ some (1, t')
    ]
  ]

  -- The allocation for `k` returns the number after `n`, and moves that counter alone.
  abbrev pub Allocates : CounterKey → sql.Table Counter → ℕ → Type 0
  Allocates k t n =
      (t' : sql.Table Counter) × (next_id k t ≡ some (suc n, t'))
      × ((j : CounterKey)
          → counter_value j (sql.rows t')
            ≡ (if k == j then suc n else counter_value j (sql.rows t)))

  next_id-old :
      (k : CounterKey) (t : sql.Table Counter) (c : Counter)
      → get counter_key k (sql.rows t) ≡ some c
      → Allocates k t c.value
  unfolding next_id
  next_id-old k t c e = (
    sql.update (by_key counter_key k) (λ r. record r { value = suc c.value }) t,
    ground arith,
    λ j. rw (sql.rows-update (by_key counter_key k) (λ r. record r { value = suc c.value }) t) (
        ground (
          arith,
          get-set_where counter_key k j (λ r. record r { value = suc c.value }) (sql.rows t)
              (λ r. refl),
        )),
  )

  next_id-new :
      (k : CounterKey) (t : sql.Table Counter)
      → get counter_key k (sql.rows t) ≡ none
      → Allocates k t 0
  unfolding next_id
  next_id-new k t e =
      let fresh = any_of-get counter_key k (sql.rows t) e in
      let (t', inserted, rows') =
        sql.insert_fresh (by_key counter_key k) (record { key = k; value = 1 }) t fresh in
      (
        t',
        ground arith,
        λ j. rw rows' (
            ground
              (arith, get-append_one counter_key j (sql.rows t) (record { key = k; value = 1 }))),
      )

  -- Allocation never fails; it hands out the next number for its key and advances that counter
  -- alone.
  pub next_id_lem :
      (k : CounterKey) (t : sql.Table Counter) → Allocates k t (counter_value k (sql.rows t))
  next_id_lem k t = elim (Option-cases (get counter_key k (sql.rows t))) [
    | inl e ↦ rw (e, counter_value) (next_id-new k t e)
    | inr (c, e) ↦ rw (e, counter_value) (next_id-old k t c e)
  ]
