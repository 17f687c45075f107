-- ===== src/Memory/Repository.antt =====
-- repositories/memory: per-agent working memory, and the warehouse of closed tasks.
use xevos.Base.{ℕ, Option, none, some, List, [], ◌++◌, keep, ◌==◌, nat_eq}
use xevos.Schema.Org.{AgentId, agent_id_eq}
use xevos.Schema.Task.{TaskId, ClosedReason}
use xevos.Schema.Event.{constraint_violation}
use xevos.Schema.Memory.{AgentMemory, ModelMessage, Learning, WarehouseRow, VectorRow}
use xevos.Sql.{Sql}
use xevos.Sql.Rows.{by_key, get}
use xevos.Db.{Database, Result, ok, err, memory_counter}
use xevos.Db.Counters.{next_id}

abbrev pub memory_key : AgentMemory → AgentId
memory_key m = m.agent_id

abbrev pub row_key : WarehouseRow → ℕ
row_key r = r.rowid

abbrev pub memory_id_key : WarehouseRow → ℕ
memory_id_key r = r.memory_id

abbrev pub vector_key : VectorRow → ℕ
vector_key v = v.rowid

-- `Omit<MemoryWarehouse, "id" | "createdAt">`
pub record WarehouseCreate : Type 0 where
  pub task_id : TaskId
  pub agent_id : AgentId
  pub outcome : ClosedReason
  pub learning : Learning
  pub messages : List ModelMessage

abbrev pub warehouse_row : WarehouseCreate → ℕ → ℕ → ℕ → WarehouseRow
warehouse_row e memory_id now rowid = record {
  rowid = rowid;
  memory_id = memory_id;
  task_id = e.task_id;
  agent_id = e.agent_id;
  outcome = e.outcome;
  learning = e.learning;
  messages = e.messages;
  created_at = now;
}

-- `existing?.messages ?? []`
abbrev pub messages_of : Option AgentMemory → List ModelMessage
messages_of none = []
messages_of (some m) = m.messages

module _ ⦃sql : Sql⦄ where
  unfoldable pub get_memory : Database → AgentId → Option AgentMemory
  get_memory db a = get memory_key a (sql.rows db.memories)

  -- `append`, one transaction
  unfoldable pub append_memory :
      Database → ℕ → AgentId → List ModelMessage → Result (AgentMemory × Database)
  unfolding get_memory
  append_memory db now a new =
      let existing = get_memory db a in
      let m : AgentMemory = record {
        agent_id = a;
        messages = messages_of existing ++ new;
        updated_at = now;
      } in
      elim existing [
        | some _ ↦ ok (
          m,
          record db {
            memories =
                sql.update (by_key memory_key a)
                  (λ r. record r { messages = m.messages; updated_at = now }) db.memories;
          },
        )
        | none ↦ elim (sql.insert (by_key memory_key a) m db.memories) [
          | none ↦ err constraint_violation
          | some memories ↦ ok (m, record db { memories = memories })
        ]
      ]

  unfoldable pub clear_memory : Database → AgentId → Database
  clear_memory db a = record db { memories = sql.delete (by_key memory_key a) db.memories }

  -- The write to `vec_memory`, after the row is committed.
  unfoldable pub index_row :
      Database → WarehouseRow → Option (List ℕ) → Result WarehouseRow × Database
  index_row db row none = (ok row, db)
  index_row db row (some blob) =
      elim (sql.insert (by_key vector_key row.rowid)
        (record { rowid = row.rowid; embedding = blob }) db.vectors) [
          | none ↦ (err constraint_violation, db)
          | some vectors ↦ (ok row, record db { vectors = vectors })
        ]

  -- `archive`: the counter and the row in one transaction, then the vector.
  unfoldable pub archive_learning :
      Database → ℕ → WarehouseCreate → Option (List ℕ) → Result WarehouseRow × Database
  unfolding index_row
  archive_learning db now entry embedding = elim (next_id memory_counter db.counters) [
    | none ↦ (err constraint_violation, db)
    | some (n, counters) ↦
        let (rowid, warehouse) = sql.insert_auto row_key (warehouse_row entry n now) db.warehouse in
        index_row (record db { warehouse = warehouse; counters = counters })
          (warehouse_row entry n now rowid) embedding
  ]

  abbrev pub list_by_task : Database → TaskId → List WarehouseRow
  list_by_task db t = keep (λ r. r.task_id == t) (sql.rows db.warehouse)

  abbrev pub list_by_agent : Database → AgentId → List WarehouseRow
  list_by_agent db a = keep (λ r. r.agent_id == a) (sql.rows db.warehouse)

  abbrev pub delete_learning : Database → ℕ → Database
  delete_learning db id = record db {
    warehouse = sql.delete (by_key memory_id_key id) db.warehouse;
  }
