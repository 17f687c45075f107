-- ===== src/Memory/Context.antt =====
-- What `assembleContext` of core/services/memory.ts puts before an agent's memory.
use xevos.Base.{
  ℕ, ◌≤◌, ◌≡◌, refl, sym, subst, inl, inr, false, Option, Option-cases, Bool-cases, none, some,
  List, [], ◌∷◌, any, All, length, Text, arith, ◌==◌, nat_eq, ◌⊎◌, find_sound,
}
use xevos.Schema.Org.{Agent}
use xevos.Schema.Event.{Event}
use xevos.Schema.Json.{Json}
use xevos.Schema.Memory.{ModelMessage, WarehouseRow}
use xevos.Sql.{Sql}
use xevos.Sql.Rows.{get}
use xevos.Db.{Database}
use xevos.Memory.Repository.{row_key, messages_of, get_memory}
use xevos.Memory.Service.{Models}
use xevos.Memory.Recall.{
  Nearest, is_warehouse_context, build_search_query, rows_of, search_by_vector, vector_recall,
  warehouse_context_limit, warehouse_message, with_context, context_for, assemble_context,
}

module _ ⦃sql : Sql⦄ where
  -- A row that the warehouse holds under its key.
  abbrev pub OnFile : Database → WarehouseRow → Type 0
  OnFile db r = get row_key r.rowid (sql.rows db.warehouse) ≡ some r

  get-OnFile :
      (db : Database) (id : ℕ) (r : WarehouseRow)
      → get row_key id (sql.rows db.warehouse) ≡ some r
      → OnFile db r
  get-OnFile db id r h =
      let same : (row_key r ≡ id) =
        ground (arith, find_sound (λ x. row_key x == id) (sql.rows db.warehouse) r h) in
      subst (λ i. get row_key i (sql.rows db.warehouse) ≡ some r) (sym same) h

  rows_of_sound :
      (db : Database) (ids : List ℕ)
      → (length (rows_of db ids) ≤ length ids) × All (OnFile db) (rows_of db ids)
  unfolding rows_of
  rows_of_sound db [] = (omega arith, tt)
  rows_of_sound db (id ∷ ids) =
      let rest = rows_of_sound db ids in
      elim (Option-cases (get row_key id (sql.rows db.warehouse))) [
        | inl e ↦ rw (e, rows_of) (omega (arith, rest.0), rest.1)
        | inr (r, e) ↦ rw (e, rows_of) (omega (arith, rest.0), (get-OnFile db id r e, rest.1))
      ]

  module _ (near : Nearest) (models : Models) where
    abbrev pub Recalled : Database → ℕ → List WarehouseRow → Type 0
    Recalled db limit rows = (length rows ≤ limit) × All (OnFile db) rows

    pub vector_recall-Recalled :
        (db : Database) (query : Text) (limit : ℕ)
        → Recalled db limit (vector_recall near models db query limit)
    unfolding vector_recall search_by_vector
    vector_recall-Recalled db query limit = elim (Option-cases (models.embed_text query)) [
      | inl e ↦ rw (e, vector_recall) (omega arith, tt)
      | inr (q, e) ↦ elim (Option-cases (near.knn db.vectors q limit)) [
        | inl k ↦ rw (e, k, vector_recall) (omega arith, tt)
        | inr (ids, k) ↦
            let s = rows_of_sound db ids in
            let b = near.knn_bounded db.vectors q limit ids k in
            rw (e, k, vector_recall) (omega (arith, s.0, b), s.1)
      ]
    ]

    module _ (json : Json) where
      context_for-Recalled :
          (db : Database) (query : Option Text)
          → Recalled db warehouse_context_limit (context_for near models json db query)
      context_for-Recalled db none = (omega arith, tt)
      context_for-Recalled db (some []) = (omega arith, tt)
      context_for-Recalled db (some (c ∷ query)) =
          vector_recall-Recalled db (c ∷ query) warehouse_context_limit

      -- The memory as it is, or one message of recalled rows in front of it.
      abbrev pub Assembled : Database → List ModelMessage → List ModelMessage → Type 0
      Assembled db memory out =
          (out ≡ memory)
          ⊎ ((row : WarehouseRow) × (rest : List WarehouseRow) × (out
                ≡ warehouse_message near models json (row ∷ rest) ∷ memory)
              × (any is_warehouse_context memory ≡ false)
              × Recalled db warehouse_context_limit (row ∷ rest))

      with_context-Assembled :
          (db : Database) (rows : List WarehouseRow) (memory : List ModelMessage)
          → any is_warehouse_context memory ≡ false
          → Recalled db warehouse_context_limit rows
          → Assembled db memory (with_context near models json rows memory)
      with_context-Assembled db [] memory h s = inl refl
      with_context-Assembled db (r ∷ rows) memory h s = inr (r, rows, refl, h, s)

      -- The context of an agent is its working memory as it is, or that memory behind one message of
      -- between one and five warehouse rows, each on file; the message is added only to a memory that has
      -- no such message.
      pub assemble_context-Assembled :
          (db : Database) (a : Agent) (e : Event)
          → Assembled db
              (messages_of (get_memory db a.id))
              (assemble_context near models json db a e)
      unfolding assemble_context
      assemble_context-Assembled db a e =
          let memory = messages_of (get_memory db a.id) in
          let found = context_for near models json db (build_search_query json e.body) in
          elim (Bool-cases (any is_warehouse_context memory)) [
            | inl h ↦ inl (ground (arith, h))
            | inr h ↦ subst (Assembled db memory) (ground (arith, h)) (
                with_context-Assembled db found memory h
                  (context_for-Recalled db (build_search_query json e.body)))
          ]
