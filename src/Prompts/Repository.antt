-- ===== src/Prompts/Repository.antt =====
-- repositories/prompt/prompt.repository.ts: the `prompts` table and its cache in memory, which is a
-- function from keys. The default texts are an argument; `all` is the cache itself.
use xevos.Base.{
  find-any, ℕ, ◌≡◌, refl, ap, sym, ◌∙◌, true, false, Bool-cases, Option, Option-cases, none, some,
  List, [], ◌∷◌, any, ◌==◌, Text, arith, inl, inr, if◌then◌else◌,
}
use xevos.Schema.Org.{Role, Department}
use xevos.Sql.{Sql}
use xevos.Sql.Rows.{by_key, get, get-set_where, get-append_one, any_of-get}
use xevos.Db.{PromptKey, PromptKey-discrete, prompt_key_eq, PromptRow, role_key, department_key}

abbrev pub prompt_key : PromptRow → PromptKey
prompt_key r = r.key

abbrev pub content_of : Option PromptRow → Option Text
content_of none = none
content_of (some r) = some r.content

abbrev pub put : (PromptKey → Option Text) → PromptKey → Text → PromptKey → Option Text
put cache k t j = if k == j then some t else cache j

module _ ⦃sql : Sql⦄ where
  pub record Prompts : Type 0 where
    pub table : sql.Table PromptRow
    pub cache : PromptKey → Option Text

  -- `seedDefaults`: `onConflictDoNothing`
  unfoldable pub seed : sql.Table PromptRow → List PromptRow → sql.Table PromptRow
  seed t [] = t
  seed t (r ∷ rs) = elim (sql.insert (by_key prompt_key r.key) r t) [
    | none ↦ seed t rs
    | some t' ↦ seed t' rs
  ]

  -- `loadCache`
  unfoldable pub load : List PromptRow → (PromptKey → Option Text) → PromptKey → Option Text
  load [] cache = cache
  load (r ∷ rs) cache = load rs (put cache r.key r.content)

  -- `create`, on the table as it is
  abbrev pub create : sql.Table PromptRow → List PromptRow → Prompts
  create t defaults =
      let seeded = seed t defaults in
      record { table = seeded; cache = load (sql.rows seeded) (λ k. none) }

  -- `getRolePrompt` and `getDepartmentPrompt`; `none` is an exception, also on a text that is empty.
  abbrev pub get_prompt : Prompts → PromptKey → Option Text
  get_prompt p k = elim (p.cache k) [ none ↦ none | some [] ↦ none | some (c ∷ t) ↦ some (c ∷ t) ]

  -- `getAgentPrompt`
  abbrev pub get_agent_prompt : Prompts → Role → Department → Option (Text × Text)
  get_agent_prompt p r d = elim (get_prompt p (role_key r)) [
    | none ↦ none
    | some role_prompt ↦ elim (get_prompt p (department_key d)) [
      | none ↦ none
      | some department_prompt ↦ some (role_prompt, department_prompt)
    ]
  ]

  -- `upsert`: `onConflictDoUpdate`
  unfoldable pub upsert : sql.Table PromptRow → ℕ → PromptKey → Text → sql.Table PromptRow
  upsert t now k content =
      elim (sql.insert (by_key prompt_key k)
        (record { key = k; content = content; updated_at = now }) t) [
          | none ↦
              sql.update (by_key prompt_key k)
                (λ r. record r { content = content; updated_at = now }) t
          | some t' ↦ t'
        ]

  -- `saveRolePrompt` and `saveDepartmentPrompt`
  unfoldable pub save : Prompts → ℕ → PromptKey → Text → Prompts
  save p now k content = record {
    table = upsert p.table now k content;
    cache = put p.cache k content;
  }

  insert-get :
      (t : sql.Table PromptRow) (r : PromptRow)
      → any (by_key prompt_key r.key) (sql.rows t) ≡ false
      → (t' : sql.Table PromptRow) × (sql.insert (by_key prompt_key r.key) r t ≡ some t')
        × ((k : PromptKey)
            → get prompt_key k (sql.rows t')
              ≡ (if r.key == k then some r else get prompt_key k (sql.rows t)))
  insert-get t r free =
      let (t', inserted, rows) = sql.insert_fresh (by_key prompt_key r.key) r t free in
      (
        t',
        inserted,
        λ k. ap (get prompt_key k) rows ∙ get-append_one prompt_key k (sql.rows t) r free,
      )

  present :
      (t : sql.Table PromptRow) (k : PromptKey)
      → any (by_key prompt_key k) (sql.rows t) ≡ true
      → (r : PromptRow) × (get prompt_key k (sql.rows t) ≡ some r)
  present t k taken = elim (Option-cases (get prompt_key k (sql.rows t))) [
    | inr found ↦ found
    | inl e ↦ absurd (ground (arith, taken, any_of-get prompt_key k (sql.rows t) e))
  ]

  updated_content :
      (t : sql.Table PromptRow) (now : ℕ) (k j : PromptKey) (content : Text)
      → ((r : PromptRow) × (get prompt_key k (sql.rows t) ≡ some r))
      → content_of (
          if k == j
          then elim (get prompt_key j (sql.rows t)) [
            | none ↦ none
            | some r ↦ some (record r { content = content; updated_at = now })
          ]
          else get prompt_key j (sql.rows t))
        ≡ (if k == j then some content else content_of (get prompt_key j (sql.rows t)))
  updated_content t now k j content (r, e) = elim (PromptKey-discrete k j) [
    | no n ↦ ground (arith, n)
    | yes same ↦
        let e' : get prompt_key j (sql.rows t) ≡ some r =
          ap (λ x. get prompt_key x (sql.rows t)) (sym same) ∙ e in
        ground (arith, same, e')
  ]

  -- The upsert makes the content of its key the new one, and leaves every other key.
  upsert-content :
      (t : sql.Table PromptRow) (now : ℕ) (k : PromptKey) (content : Text) (j : PromptKey)
      → content_of (get prompt_key j (sql.rows (upsert t now k content)))
        ≡ (if k == j then some content else content_of (get prompt_key j (sql.rows t)))
  unfolding upsert
  upsert-content t now k content j = elim (Bool-cases (any (by_key prompt_key k) (sql.rows t))) [
    | inr free ↦
        let (t', inserted, at) =
          insert-get t (record { key = k; content = content; updated_at = now }) free in
        rw (inserted, upsert) (ap content_of (at j) ∙ ground arith)
    | inl taken ↦
        let f : PromptRow → PromptRow = λ r. record r { content = content; updated_at = now } in
        let refused =
          sql.insert_clash (by_key prompt_key k)
            (record { key = k; content = content; updated_at = now }) t taken in
        rw (refused, upsert)
          (ap (λ rs. content_of (get prompt_key j rs)) (sql.rows-update (by_key prompt_key k) f t)
            ∙ (ap content_of (get-set_where prompt_key k j f (sql.rows t) (λ r. refl))
                ∙ updated_content t now k j content (present t k taken)))
  ]

  -- The cache reads as the table does.
  abbrev pub Synced : Prompts → Type 0
  Synced p = (k : PromptKey) → p.cache k ≡ content_of (get prompt_key k (sql.rows p.table))

  -- Saving a prompt keeps the cache in step with the table.
  pub save-Synced :
      (p : Prompts) (now : ℕ) (k : PromptKey) (content : Text)
      → Synced p
      → Synced (save p now k content)
  unfolding save
  save-Synced p now k content v j =
      ap (λ o. if k == j then some content else o) (v j)
      ∙ sym (upsert-content p.table now k content j)

  seeded_new :
      (t t' : sql.Table PromptRow) (r : PromptRow) (rs : List PromptRow) (k : PromptKey)
      → get prompt_key k (sql.rows t')
        ≡ (if r.key == k then some r else get prompt_key k (sql.rows t))
      → any (by_key prompt_key r.key) (sql.rows t) ≡ false
      → elim (get prompt_key k (sql.rows t')) [ none ↦ get prompt_key k rs | some x ↦ some x ]
        ≡ elim (get prompt_key k (sql.rows t)) [
          | none ↦ get prompt_key k (r ∷ rs)
          | some x ↦ some x
        ]
  seeded_new t t' r rs k h free = elim (PromptKey-discrete r.key k) [
    | no n ↦ ground (arith, n, h)
    | yes same ↦
        let gone : get prompt_key k (sql.rows t) ≡ none =
          find-any (by_key prompt_key k) (sql.rows t)
            (ap (λ x. any (by_key prompt_key x) (sql.rows t)) (sym same) ∙ free) in
        ground (arith, same, h, gone)
  ]

  seeded_old :
      (t : sql.Table PromptRow) (r old : PromptRow) (rs : List PromptRow) (k : PromptKey)
      → get prompt_key r.key (sql.rows t) ≡ some old
      → elim (get prompt_key k (sql.rows t)) [ none ↦ get prompt_key k rs | some x ↦ some x ]
        ≡ elim (get prompt_key k (sql.rows t)) [
          | none ↦ get prompt_key k (r ∷ rs)
          | some x ↦ some x
        ]
  seeded_old t r old rs k found = elim (PromptKey-discrete r.key k) [
    | no n ↦ ground (arith, n)
    | yes same ↦
        let here : get prompt_key k (sql.rows t) ≡ some old =
          ap (λ x. get prompt_key x (sql.rows t)) (sym same) ∙ found in
        ground (arith, same, here)
  ]

  -- Seeding adds a default for each key without a row, and changes no prompt that is there.
  pub get-seed :
      (t : sql.Table PromptRow) (defaults : List PromptRow) (k : PromptKey)
      → get prompt_key k (sql.rows (seed t defaults)) ≡ elim (get prompt_key k (sql.rows t)) [
        | none ↦ get prompt_key k defaults
        | some r ↦ some r
      ]
  unfolding seed
  get-seed t [] k = ground arith
  get-seed t (r ∷ rs) k = elim (Bool-cases (any (by_key prompt_key r.key) (sql.rows t))) [
    | inr free ↦
        let (t', inserted, at) = insert-get t r free in
        rw (inserted, seed) (get-seed t' rs k ∙ seeded_new t t' r rs k (at k) free)
    | inl taken ↦
        let (old, found) = present t r.key taken in
        rw (sql.insert_clash (by_key prompt_key r.key) r t taken, seed)
          (get-seed t rs k ∙ seeded_old t r old rs k found)
  ]
