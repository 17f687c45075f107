-- ===== src/Memory/Closing.antt =====
-- `closeTask` of core/services/memory.ts: the working memory of the agent moves into the warehouse.
use xevos.Base.{
  ℕ, ◌≡◌, refl, sym, ap, ◌∙◌, Option, Option-cases, none, some, List, [], ◌∷◌, ◌++◌, Text, arith,
  inl, inr, ==_refl,
}
use xevos.Schema.Org.{AgentId, agent_id_eq}
use xevos.Schema.Task.{TaskId, ClosedReason}
use xevos.Schema.Memory.{Learning, WarehouseRow}
use xevos.Sql.{Sql}
use xevos.Sql.Rows.{by_key, get, get-drop_where}
use xevos.Db.{Database, ok, memory_counter}
use xevos.Db.Counters.{next_id}
use xevos.Tasks.Repository.{get_task}
use xevos.Memory.Repository.{
  memory_key, WarehouseCreate, messages_of, get_memory, clear_memory, row_key, warehouse_row,
  archive_learning, index_row,
}
use xevos.Memory.Service.{Models, close_task, close_with, embed_learning}

module _ ⦃sql : Sql⦄ where
  index_row-tables :
      (db : Database) (row : WarehouseRow) (e : Option (List ℕ))
      → ((index_row db row e).1.memories ≡ db.memories)
        × ((index_row db row e).1.warehouse ≡ db.warehouse)
  unfolding index_row
  index_row-tables db row none = (refl, refl)
  index_row-tables db row (some b) = (ground arith, ground arith)

  index_row-row :
      (db : Database) (row r : WarehouseRow) (e : Option (List ℕ))
      → (index_row db row e).0 ≡ ok r
      → r ≡ row
  unfolding index_row
  index_row-row db row r none h = ground (arith, h)
  index_row-row db row r (some b) h = ground (arith, h)

  -- What is in the warehouse after a learning was archived.
  record Archived (db : Database) (entry : WarehouseCreate) (row : WarehouseRow) (db' : Database)
      : Type 0 where
    pub memories : db'.memories ≡ db.memories
    pub rows : sql.rows db'.warehouse ≡ sql.rows db.warehouse ++ (row ∷ [])
    pub messages : row.messages ≡ entry.messages
    pub task : row.task_id ≡ entry.task_id
    pub learning : row.learning ≡ entry.learning

  archive_learning-Archived :
      (db : Database) (now : ℕ) (entry : WarehouseCreate) (e : Option (List ℕ)) (row : WarehouseRow)
      → (archive_learning db now entry e).0 ≡ ok row
      → Archived db entry row (archive_learning db now entry e).1
  unfolding archive_learning
  archive_learning-Archived db now entry e row h =
      elim (Option-cases (next_id memory_counter db.counters)) [
        | inl f ↦ absurd (ground (arith, f, h))
        | inr ((n, counters), f) ↦
            let (rowid, warehouse) =
              sql.insert_auto row_key (warehouse_row entry n now) db.warehouse in
            let db1 : Database = record db { warehouse = warehouse; counters = counters } in
            let made = warehouse_row entry n now rowid in
            let same = index_row-tables db1 made e in
            let is : row ≡ made = index_row-row db1 made row e (ground (arith, f, h)) in
            rw (f, archive_learning)
              (record {
                memories = same.0;
                rows =
                    ap sql.rows same.1
                    ∙ (sql.insert_auto_rows row_key (warehouse_row entry n now) db.warehouse
                        ∙ ap (λ r. sql.rows db.warehouse ++ (r ∷ [])) (sym is));
                messages = ap (λ r. r.messages) is;
                task = ap (λ r. r.task_id) is;
                learning = ap (λ r. r.learning) is;
              })
      ]

  cleared : (db : Database) (a : AgentId) → get_memory (clear_memory db a) a ≡ none
  unfolding get_memory clear_memory
  cleared db a =
      rw (sql.rows-delete (by_key memory_key a) db.memories)
        (get-drop_where memory_key a a (sql.rows db.memories) ∙ ground (arith, ==_refl a))

  get_memory-same :
      (db db' : Database) (a : AgentId)
      → db'.memories ≡ db.memories
      → get_memory db' a ≡ get_memory db a
  unfolding get_memory
  get_memory-same db db' a h = ap (λ t. get memory_key a (sql.rows t)) h

  -- What closing a task has done.
  pub record Closed (db : Database) (a : AgentId) (t : TaskId) (row : WarehouseRow) (db' : Database)
      : Type 0 where
    pub forgotten : get_memory db' a ≡ none
    pub rows : sql.rows db'.warehouse ≡ sql.rows db.warehouse ++ (row ∷ [])
    pub messages : row.messages ≡ messages_of (get_memory db a)
    pub task : row.task_id ≡ t

  module _ (models : Models) where
    close_with-Closed :
        (db : Database) (now : ℕ) (a : AgentId) (t : TaskId) (r : ClosedReason)
        (l : Option Learning) (row : WarehouseRow)
        → (close_with models db now a t r (messages_of (get_memory db a)) l).0 ≡ ok row
        → Closed db a t row (close_with models db now a t r (messages_of (get_memory db a)) l).1
    unfolding close_with clear_memory
    close_with-Closed db now a t r none row h = absurd (ground (arith, h))
    close_with-Closed db now a t r (some l) row h =
        let entry : WarehouseCreate = record {
          task_id = t;
          agent_id = a;
          outcome = r;
          learning = l;
          messages = messages_of (get_memory db a);
        } in
        let done =
          archive_learning-Archived (clear_memory db a) now entry (embed_learning models l) row h in
        record {
          forgotten = get_memory-same (clear_memory db a) _ a done.memories ∙ cleared db a;
          rows = done.rows;
          messages = done.messages;
          task = done.task;
        }

    -- When closing a task succeeds, the agent's working memory is gone, and the warehouse has gained one
    -- row, which holds the messages that were in it and names the task.
    pub close_task-Closed :
        (db : Database) (now : ℕ) (a : AgentId) (t : TaskId) (r : ClosedReason) (why : Option Text)
        (row : WarehouseRow)
        → (close_task models db now a t r why).0 ≡ ok row
        → Closed db a t row (close_task models db now a t r why).1
    unfolding close_task
    close_task-Closed db now a t r why row h = elim (Option-cases (get_task db t)) [
      | inl e ↦ absurd (ground (arith, e, h))
      | inr (task, e) ↦
          rw (e, close_task) (close_with-Closed db now a t r _ row (ground (arith, e, h)))
    ]
