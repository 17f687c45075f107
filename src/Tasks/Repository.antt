-- ===== src/Tasks/Repository.antt =====
-- repositories/task.repository.ts: the `tasks` table. `Date.now()` is the argument `now`.
use xevos.Base.{ℕ, Bool, false, Option, none, some, List, keep, ◌==◌, nat_eq, or_else}
use xevos.Schema.Org.{AgentId, agent_id_eq}
use xevos.Schema.Task.{TaskId, TaskStatus, Task, TaskCreate, TaskPatch, assigned, task_status_eq}
use xevos.Schema.Event.{constraint_violation}
use xevos.Sql.{Sql}
use xevos.Sql.Rows.{by_key, get}
use xevos.Db.{Database, Result, ok, err, task_counter}
use xevos.Db.Counters.{next_id}

abbrev pub task_key : Task → TaskId
task_key t = t.id

abbrev pub empty_patch : TaskPatch
empty_patch = record {
  status = none;
  review = none;
  assigned_to = none;
  priority = none;
  deadline = none;
}

-- `.set({ ...updates, updatedAt: Date.now() })` on one row
abbrev pub apply_patch : TaskPatch → ℕ → Task → Task
apply_patch p now t = record t {
  status = or_else p.status t.status;
  review = or_else p.review t.review;
  assigned_to = or_else p.assigned_to t.assigned_to;
  priority = or_else p.priority t.priority;
  deadline = or_else p.deadline t.deadline;
  updated_at = now;
}

-- The record that `createTask` inserts: born assigned.
abbrev pub new_task : TaskId → ℕ → TaskCreate → Task
new_task n now spec = record {
  id = n;
  status = assigned;
  referce_task = spec.referce_task;
  review = none;
  title = spec.title;
  description = spec.description;
  acceptance_criteria = spec.acceptance_criteria;
  dependencies = spec.dependencies;
  assigned_to = spec.assigned_to;
  priority = spec.priority;
  deadline = spec.deadline;
  budget = spec.budget;
  created_at = now;
  updated_at = now;
}

abbrev assigned_is : AgentId → Task → Bool
assigned_is a t = elim t.assigned_to [ none ↦ false | some b ↦ a == b ]

module _ ⦃sql : Sql⦄ where
  -- `get`
  unfoldable pub get_task : Database → TaskId → Option Task
  get_task db id = get task_key id (sql.rows db.tasks)

  -- `createTask`, one transaction
  unfoldable pub create_task : Database → ℕ → TaskCreate → Result (Task × Database)
  create_task db now spec = elim (next_id task_counter db.counters) [
    | none ↦ err constraint_violation
    | some (n, counters) ↦ elim (sql.insert (by_key task_key n) (new_task n now spec) db.tasks) [
      | none ↦ err constraint_violation
      | some tasks ↦ ok (new_task n now spec, record db { tasks = tasks; counters = counters })
    ]
  ]

  -- `update`: the row after the update, `none` where no row has the id
  unfoldable pub update_task : Database → ℕ → TaskId → TaskPatch → Option Task × Database
  update_task db now id patch =
      let tasks = sql.update (by_key task_key id) (apply_patch patch now) db.tasks in
      (get task_key id (sql.rows tasks), record db { tasks = tasks })

  -- `delete`
  abbrev pub delete_task : Database → TaskId → Database
  delete_task db id = record db { tasks = sql.delete (by_key task_key id) db.tasks }

  -- `list`, `listByAgent`, `listByStatus`
  abbrev pub list_tasks : Database → List Task
  list_tasks db = sql.rows db.tasks

  abbrev pub list_tasks_by_agent : Database → AgentId → List Task
  list_tasks_by_agent db a = keep (assigned_is a) (sql.rows db.tasks)

  abbrev pub list_tasks_by_status : Database → TaskStatus → List Task
  list_tasks_by_status db s = keep (λ t. t.status == s) (sql.rows db.tasks)
