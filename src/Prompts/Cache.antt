-- ===== src/Prompts/Cache.antt =====
-- The prompts that are read after a start: the table is seeded and loaded into the cache.
use xevos.Base.{
  find-any, ℕ, ◌≡◌, refl, ap, sym, ◌∙◌, subst, false, Bool-cases, Option, none, some, List, [], ◌∷◌,
  ◌++◌, any, Text, arith, inl, inr,
}
use xevos.Schema.Org.{Role, Department}
use xevos.Sql.{Sql}
use xevos.Sql.Rows.{by_key, get}
use xevos.Db.{PromptKey, PromptKey-discrete, prompt_key_eq, PromptRow, role_key, department_key}
use xevos.Prompts.Repository.{
  prompt_key, content_of, put, Synced, seed, load, create, get_prompt, get_agent_prompt, get-seed,
}

-- No two rows have one key, as the table's primary key has it.
abbrev pub Keyed : List PromptRow → Type 0
Keyed [] = Unit
Keyed (r ∷ rs) = (any (by_key prompt_key r.key) rs ≡ false) × Keyed rs

other_key :
    (r x : PromptRow) (rs : List PromptRow)
    → any (by_key prompt_key r.key) rs ≡ false
    → by_key prompt_key x.key r ≡ false
    → any (by_key prompt_key r.key) (rs ++ (x ∷ [])) ≡ false
other_key r x [] h e = elim (PromptKey-discrete x.key r.key) [
  | yes same ↦ ground (arith, same, e)
  | no n ↦ ground (arith, n)
]
other_key r x (y ∷ rs) h e = ground (arith, h, other_key r x rs)

append-Keyed :
    (rs : List PromptRow) (x : PromptRow)
    → Keyed rs
    → any (by_key prompt_key x.key) rs ≡ false
    → Keyed (rs ++ (x ∷ []))
append-Keyed [] x v free = (refl, tt)
append-Keyed (r ∷ rs) x (fresh, v) free =
    (other_key r x rs fresh (ground (arith, free)), append-Keyed rs x v (ground (arith, free)))

module _ ⦃sql : Sql⦄ where
  load-Keyed :
      (rs : List PromptRow) (cache : PromptKey → Option Text) (k : PromptKey)
      → Keyed rs
      → load rs cache k ≡ elim (get prompt_key k rs) [ none ↦ cache k | some r ↦ some r.content ]
  unfolding load
  load-Keyed [] cache k v = refl
  load-Keyed (r ∷ rs) cache k (fresh, v) = elim (PromptKey-discrete r.key k) [
    | no n ↦ ground (arith, n, load-Keyed rs (put cache r.key r.content) k v)
    | yes same ↦
        (let gone =
            find-any (by_key prompt_key k) rs
              (ap (λ x. any (by_key prompt_key x) rs) (sym same) ∙ fresh) in
          ground (arith, same, gone, load-Keyed rs (put cache r.key r.content) k v))
  ]

  seed-Keyed :
      (t : sql.Table PromptRow) (defaults : List PromptRow)
      → Keyed (sql.rows t)
      → Keyed (sql.rows (seed t defaults))
  unfolding seed
  seed-Keyed t [] v = v
  seed-Keyed t (r ∷ rs) v = elim (Bool-cases (any (by_key prompt_key r.key) (sql.rows t))) [
    | inr free ↦
        let (t', inserted, rows) = sql.insert_fresh (by_key prompt_key r.key) r t free in
        rw (inserted, seed)
          (seed-Keyed t' rs (subst Keyed (sym rows) (append-Keyed (sql.rows t) r v free)))
    | inl taken ↦
        rw (sql.insert_clash (by_key prompt_key r.key) r t taken, seed) (seed-Keyed t rs v)
  ]

  -- The content under a key: that of its row, or else that of its default.
  abbrev pub effective : sql.Table PromptRow → List PromptRow → PromptKey → Option Text
  effective t defaults k = elim (get prompt_key k (sql.rows t)) [
    | none ↦ content_of (get prompt_key k defaults)
    | some r ↦ some r.content
  ]

  cache-create :
      (t : sql.Table PromptRow) (defaults : List PromptRow) (k : PromptKey)
      → Keyed (sql.rows t)
      → (create t defaults).cache k ≡ effective t defaults k
  cache-create t defaults k v =
      load-Keyed (sql.rows (seed t defaults)) (λ _. none) k (seed-Keyed t defaults v)
      ∙ ground (arith, get-seed t defaults k)

  -- After `create` on a table with one row per key, in which the role's prompt and the department's, or
  -- where there is none their defaults, are not empty, the cache reads as the table does, and
  -- `getAgentPrompt` returns these two.
  pub get_agent_prompt-create :
      (t : sql.Table PromptRow) (defaults : List PromptRow) (r : Role) (d : Department) (x y : ℕ)
      (role_prompt department_prompt : Text)
      → Keyed (sql.rows t)
      → effective t defaults (role_key r) ≡ some (x ∷ role_prompt)
      → effective t defaults (department_key d) ≡ some (y ∷ department_prompt)
      → Synced (create t defaults)
        × (get_agent_prompt (create t defaults) r d ≡ some (x ∷ role_prompt, y ∷ department_prompt))
  get_agent_prompt-create t defaults r d x y role_prompt department_prompt v hr hd = (
    λ k.
        load-Keyed (sql.rows (seed t defaults)) (λ _. none) k (seed-Keyed t defaults v)
        ∙ ground arith,
    rw
        (
          cache-create t defaults (role_key r) v ∙ hr,
          cache-create t defaults (department_key d) v ∙ hd,
          get_agent_prompt,
          get_prompt,
        )
        refl,
  )
