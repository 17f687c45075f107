-- ===== src/System/Roster.antt =====
-- What the task service and the tools leave alone: the agents.
use xevos.Base.{ℕ, ◌≡◌, refl, ◌∙◌, Option, Option-cases, none, inl, inr, arith, nat_eq, Text}
use xevos.Schema.Org.{agent, EndpointId}
use xevos.Schema.Task.{TaskId, Task, TaskStatus, TaskCreate, TaskPatch}
use xevos.Schema.Event.{
  Event, Body, task_create_request, task_transition_request, task_update_request,
}
use xevos.Sql.{Sql}
use xevos.Db.{Database, ok, Result-cases}
use xevos.Bus.Core.{World}
use xevos.Bus.Frame.{publish-tables}
use xevos.Memory.Service.{Models}
use xevos.Tasks.Repository.{create_task, update_task}
use xevos.Tasks.Service.{
  create, create_for, move, transition, handle_create, handle_transition, handle_update, dispatch,
  respond, update_reply,
}
use xevos.Tasks.Transitions.{archive_closed-Kept}
use xevos.Tasks.Lifecycle.{archive_updated-Kept}
use xevos.Agents.Repository.{get_agent}

module _ ⦃sql : Sql⦄ where
  create_task-agents :
      (db : Database) (now : ℕ) (spec : TaskCreate) (t : Task) (db' : Database)
      → create_task db now spec ≡ ok (t, db')
      → db'.agents ≡ db.agents
  unfolding create_task
  create_task-agents db now spec t db' h = ground (arith, h)

  create_for-agents :
      (w : World) (now : ℕ) (target : EndpointId) (spec : TaskCreate)
      → (create_for w now target spec).1.db.agents ≡ w.db.agents
  unfolding create_for
  create_for-agents w now target spec = elim (Result-cases (create_task w.db now spec)) [
    | inr (x, h) ↦ ground (arith, h)
    | inl ((t, db), h) ↦ grind (arith, h, create_task-agents w.db now spec t db h, publish-tables)
  ]

  pub create-agents :
      (w : World) (now : ℕ) (spec : TaskCreate) → (create w now spec).1.db.agents ≡ w.db.agents
  unfolding create
  create-agents w now spec = elim (Option-cases spec.assigned_to) [
    | inl e ↦ ground (arith, e)
    | inr (a, e) ↦ elim (Result-cases (get_agent w.db a)) [
      | inr (x, f) ↦ ground (arith, e, f)
      | inl (b, f) ↦ ground (arith, e, f, create_for-agents w now (agent a) spec)
    ]
  ]

  module _ (models : Models) where
    move-agents :
        (db : Database) (now : ℕ) (id : TaskId) (to : TaskStatus) (why : Option Text)
        → (move models db now id to why).agents ≡ db.agents
    unfolding move update_task
    move-agents db now id to why = (archive_closed-Kept models _ now _ to why).agents

    pub transition-agents :
        (db : Database) (now : ℕ) (source : EndpointId) (id : TaskId) (to : TaskStatus)
        (why : Option Text)
        → (transition models db now source id to why).1.agents ≡ db.agents
    unfolding transition
    transition-agents db now source id to why = ground (arith, move-agents db now id to why)

    update-agents :
        (w : World) (now : ℕ) (e : Event) (id : TaskId) (patch : TaskPatch)
        → (handle_update models w now e id patch).db.agents ≡ w.db.agents
    unfolding handle_update update_task
    update-agents w now e id patch =
        let (updated, db) = update_task w.db now id patch in
        let (w', sent) =
          respond (record w { db = db }) now e.source none (update_reply models id updated) in
        let published = (publish-tables (record w { db = db }) now _).1 in
        elim (Result-cases sent) [
          | inr (x, h) ↦ rw (h, handle_update) published
          | inl (n, h) ↦
              rw (h, handle_update)
                ((archive_updated-Kept models w'.db now updated).agents ∙ published)
        ]

    -- The task service writes no agent.
    pub dispatch-agents :
        (w : World) (now : ℕ) (e : Event) (body : Body)
        → (dispatch models w now e body).db.agents ≡ w.db.agents
    unfolding dispatch handle_create handle_transition
    dispatch-agents w now e (task_create_request spec) =
        (publish-tables _ now _).1 ∙ create-agents w now spec
    dispatch-agents w now e (task_transition_request id to why) =
        (publish-tables _ now _).1 ∙ transition-agents w.db now e.source id to why
    dispatch-agents w now e (task_update_request id patch) = update-agents w now e id patch
    dispatch-agents w now e body = refl
