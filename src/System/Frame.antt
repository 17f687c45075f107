-- ===== src/System/Frame.antt =====
-- What the agent service and the bus leave alone: the tasks.
use xevos.Base.{ℕ, ◌≡◌, refl, ◌∙◌, ap, Option, some, inl, inr, arith, nat_eq, Text}
use xevos.Schema.Org.{agent, AgentId, Agent, AgentCreate, Department, EndpointId}
use xevos.Schema.Task.{TaskId, Task}
use xevos.Schema.Event.{
  Event, EventInput, Body, agent_creation_request, agent_suspension_request, agent_resume_request,
  agent_termination_request,
}
use xevos.Sql.{Sql}
use xevos.Sql.Rows.{get}
use xevos.Db.{Database, ok, Result-cases}
use xevos.Bus.Core.{publish}
use xevos.Bus.Frame.{publish-tables}
use xevos.Tasks.Repository.{task_key, get_task}
use xevos.Agents.Repository.{create_agent, update_agent, delete_agent}
use xevos.Agents.Service.{
  Org, admit, Verdict-cases, hire, launch, create_from, handle_creation, handle_suspension,
  handle_resume, handle_termination, halt, respond,
}
use xevos.Agents.Service as Agents
use xevos.Toolbox.Handlers.{publish_command}

module _ ⦃sql : Sql⦄ where
  -- A task reads the same after as before.
  abbrev pub Stays : TaskId → Task → Org → Org → Type 0
  Stays j t o o' = get_task o.world.db j ≡ some t → get_task o'.world.db j ≡ some t

  pub same_tasks :
      (j : TaskId) (t : Task) (o o' : Org) → o'.world.db.tasks ≡ o.world.db.tasks → Stays j t o o'
  unfolding get_task
  same_tasks j t o o' h found = ap (λ x. get task_key j (sql.rows x)) h ∙ found

  pub publish_command-tasks :
      (o : Org) (now : ℕ) (input : EventInput) (awaiting : Option Text)
      → (publish_command o now input awaiting).1.world.db.tasks ≡ o.world.db.tasks
  unfolding publish_command
  publish_command-tasks o now input awaiting = elim (Result-cases (publish o.world now input).1) [
    | inl (n, h) ↦ rw (h, publish_command) (publish-tables o.world now input).0
    | inr (x, h) ↦ rw (h, publish_command) (publish-tables o.world now input).0
  ]

  pub publish-Stays :
      (j : TaskId) (t : Task) (o : Org) (now : ℕ) (input : EventInput)
      → Stays j t o (record o { world = (publish o.world now input).0 })
  publish-Stays j t o now input =
      same_tasks j t o (record o { world = (publish o.world now input).0 })
        (publish-tables o.world now input).0

  pub command-Stays :
      (j : TaskId) (t : Task) (o : Org) (now : ℕ) (input : EventInput) (awaiting : Option Text)
      → Stays j t o (publish_command o now input awaiting).1
  command-Stays j t o now input awaiting =
      same_tasks j t o (publish_command o now input awaiting).1
        (publish_command-tasks o now input awaiting)

  create_agent-tasks :
      (db : Database) (now : ℕ) (spec : AgentCreate) (a : Agent) (db' : Database)
      → create_agent db now spec ≡ ok (a, db')
      → db'.tasks ≡ db.tasks
  unfolding create_agent
  create_agent-tasks db now spec a db' h = ground (arith, h)

  launch-db : (o : Org) (a : Agent) → (launch o a).world.db ≡ o.world.db
  unfolding launch
  launch-db o a = ground arith

  hire-tasks :
      (o : Org) (now : ℕ) (c : Agent) (spec : AgentCreate)
      → (hire o now c spec).1.world.db.tasks ≡ o.world.db.tasks
  unfolding hire update_agent
  hire-tasks o now c spec = elim (Result-cases (create_agent o.world.db now spec)) [
    | inr (x, h) ↦ ground (arith, h)
    | inl ((a, db), h) ↦ grind (arith, h, create_agent-tasks o.world.db now spec a db h, launch-db)
  ]

  pub create-tasks :
      (o : Org) (now : ℕ) (creator : AgentId) (dept : Option Department)
      → (Agents.create o now creator dept).1.world.db.tasks ≡ o.world.db.tasks
  unfolding Agents.create
  create-tasks o now creator dept = elim (Verdict-cases (admit o.world.db creator dept)) [
    | inl (c, spec, h) ↦ rw (h, Agents.create) (hire-tasks o now c spec)
    | inr (inl (r, h)) ↦ rw (h, Agents.create) refl
    | inr (inr (r, h)) ↦ rw (h, Agents.create) refl
  ]

  respond-tasks :
      (o : Org) (now : ℕ) (e : Event) (body : Body)
      → (respond o now e body).world.db.tasks ≡ o.world.db.tasks
  unfolding respond
  respond-tasks o now e body = (publish-tables o.world now _).0

  create_from-tasks :
      (o : Org) (now : ℕ) (e : EndpointId) (dept : Option Department)
      → (create_from o now e dept).1.world.db.tasks ≡ o.world.db.tasks
  create_from-tasks o now (agent a) dept = create-tasks o now a dept
  create_from-tasks o now e dept = refl

  creation-tasks :
      (o : Org) (now : ℕ) (e : Event) (spec : AgentCreate)
      → (handle_creation o now e spec).world.db.tasks ≡ o.world.db.tasks
  unfolding handle_creation
  creation-tasks o now e spec =
      grind (arith, create_from-tasks o now e.source (some spec.department), respond-tasks)

  halt-db : (o : Org) (id : AgentId) → (halt o id).world.db ≡ o.world.db
  unfolding halt
  halt-db o id = ground arith

  -- The agent service writes no task.
  pub dispatch-tasks :
      (o : Org) (now : ℕ) (e : Event) (body : Body)
      → (Agents.dispatch o now e body).world.db.tasks ≡ o.world.db.tasks
  unfolding Agents.dispatch handle_suspension handle_resume handle_termination update_agent
      delete_agent
  dispatch-tasks o now e (agent_creation_request spec) = creation-tasks o now e spec
  dispatch-tasks o now e (agent_suspension_request id why) = grind (arith, respond-tasks)
  dispatch-tasks o now e (agent_resume_request id) = grind (arith, respond-tasks, launch-db)
  dispatch-tasks o now e (agent_termination_request id why) = grind (arith, respond-tasks, halt-db)
  dispatch-tasks o now e body = refl
