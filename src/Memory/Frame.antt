-- ===== src/Memory/Frame.antt =====
-- `closeTask` writes memories, the warehouse, its vectors and its counter: tasks, agents, the log and
-- the inbox are as they were.
use xevos.Base.{ℕ, ◌≡◌, refl, ◌∙◌, Option, Option-cases, none, some, List, Text, inl, inr, arith}
use xevos.Schema.Org.{AgentId}
use xevos.Schema.Task.{TaskId, ClosedReason}
use xevos.Schema.Memory.{ModelMessage, Learning, WarehouseRow}
use xevos.Sql.{Sql}
use xevos.Db.{Database}
use xevos.Tasks.Repository.{get_task}
use xevos.Memory.Repository.{WarehouseCreate, clear_memory, archive_learning, index_row}
use xevos.Memory.Service.{Models, close_task, close_with, embed_learning}

module _ ⦃sql : Sql⦄ where
  -- What tasks, agents and the bus read of a database.
  pub record Kept (db db' : Database) : Type 0 where
    pub tasks : db'.tasks ≡ db.tasks
    pub agents : db'.agents ≡ db.agents
    pub events : db'.events ≡ db.events
    pub inbox : db'.inbox ≡ db.inbox

  abbrev pub kept_refl : (db : Database) → Kept db db
  kept_refl db = record { tasks = refl; agents = refl; events = refl; inbox = refl }

  pub kept_trans : {a b c : Database} → Kept a b → Kept b c → Kept a c
  kept_trans h k = record {
    tasks = k.tasks ∙ h.tasks;
    agents = k.agents ∙ h.agents;
    events = k.events ∙ h.events;
    inbox = k.inbox ∙ h.inbox;
  }

  index_row-Kept :
      (db : Database) (row : WarehouseRow) (e : Option (List ℕ)) → Kept db (index_row db row e).1
  unfolding index_row
  index_row-Kept db row none = kept_refl db
  index_row-Kept db row (some b) = record {
    tasks = ground arith;
    agents = ground arith;
    events = ground arith;
    inbox = ground arith;
  }

  archive_learning-Kept :
      (db : Database) (now : ℕ) (entry : WarehouseCreate) (e : Option (List ℕ))
      → Kept db (archive_learning db now entry e).1
  unfolding archive_learning index_row
  archive_learning-Kept db now entry e = record {
    tasks = ground arith;
    agents = ground arith;
    events = ground arith;
    inbox = ground arith;
  }

  module _ (models : Models) where
    close_with-Kept :
        (db : Database) (now : ℕ) (a : AgentId) (t : TaskId) (r : ClosedReason)
        (ms : List ModelMessage) (l : Option Learning)
        → Kept db (close_with models db now a t r ms l).1
    unfolding close_with clear_memory
    close_with-Kept db now a t r ms none = kept_refl db
    close_with-Kept db now a t r ms (some l) =
        let k = archive_learning-Kept (clear_memory db a) now _ (embed_learning models l) in
        record { tasks = k.tasks; agents = k.agents; events = k.events; inbox = k.inbox }

    -- Closing a task leaves the tables of tasks, agents, events and deliveries as they were.
    pub close_task-Kept :
        (db : Database) (now : ℕ) (a : AgentId) (t : TaskId) (r : ClosedReason) (why : Option Text)
        → Kept db (close_task models db now a t r why).1
    unfolding close_task
    close_task-Kept db now a t r why = elim (Option-cases (get_task db t)) [
      | inl e ↦ rw (e, close_task) (kept_refl db)
      | inr (row, e) ↦ rw (e, close_task) (close_with-Kept db now a t r _ _)
    ]
