-- ===== src/Toolbox/Parity.antt =====
-- The direct tools against the requests that the services take from the bus: both paths run the same
-- operation, and differ in what they publish.
use xevos.Base.{ℕ, ◌≡◌, refl, sym, ◌∙◌, true, Bool-cases, some, none, inl, inr, Text}
use xevos.Schema.Org.{
  Agent, AgentId, agent, service, AgentCreate, ServiceId, agent_service, tasks_service,
}
use xevos.Schema.Task.{TaskId, TaskStatus, TaskCreate}
use xevos.Schema.Event.{
  EventId, EventInput, Event, Body, agent_creation_request, task_create_request,
  task_transition_request,
}
use xevos.Schema.Json.{Json}
use xevos.Sql.{Sql}
use xevos.Db.{Result-cases}
use xevos.Bus.Core.{publish}
use xevos.Bus.Frame.{publish-tables}
use xevos.Memory.Service.{Models}
use xevos.Memory.Recall.{Nearest}
use xevos.Tasks.Service.{handle, handle_create, handle_transition, transition}
use xevos.Tasks.Service as Tasks
use xevos.Agents.Service.{Org, create_from, handle_creation}
use xevos.Agents.Service as Agents
use xevos.Toolbox.Results.{Outcome, ToolResult}
use xevos.Toolbox.Handlers.{
  ToolCall, create_subordinate_agent, create_and_assign_task, update_task_status, is_direct,
  default_task_budget, run, run_create_agent, run_create_task, run_transition,
}
use xevos.Toolbox.Service.{observation, observe, use_tool}
use xevos.Tasks.Service as Tasks
use xevos.Agents.Service as Agents

module _ ⦃sql : Sql⦄ where
  -- Two organizations with the same tasks, agents and counters, and the same agents launched.
  pub record Agree (o o' : Org) : Type 0 where
    pub tasks : o'.world.db.tasks ≡ o.world.db.tasks
    pub agents : o'.world.db.agents ≡ o.world.db.agents
    pub counters : o'.world.db.counters ≡ o.world.db.counters
    pub launched : o'.launched ≡ o.launched

  pub Agree-refl : (o : Org) → Agree o o
  Agree-refl o = record { tasks = refl; agents = refl; counters = refl; launched = refl }

  pub Agree-trans : (o p q : Org) → Agree o p → Agree p q → Agree o q
  Agree-trans o p q h k = record {
    tasks = k.tasks ∙ h.tasks;
    agents = k.agents ∙ h.agents;
    counters = k.counters ∙ h.counters;
    launched = k.launched ∙ h.launched;
  }

  pub Agree-sym : (o p : Org) → Agree o p → Agree p o
  Agree-sym o p h = record {
    tasks = sym h.tasks;
    agents = sym h.agents;
    counters = sym h.counters;
    launched = sym h.launched;
  }

  pub publish-Agree :
      (o : Org) (now : ℕ) (input : EventInput)
      → Agree o (record o { world = (publish o.world now input).0 })
  publish-Agree o now input =
      let kept = publish-tables o.world now input in
      record { tasks = kept.0; agents = kept.1; counters = kept.2; launched = refl }

  module _ (near : Nearest) (models : Models) (json : Json) (of_outcome : Outcome → Text) where
    observe-Agree :
        (o : Org) (now : ℕ) (a : Agent) (call : ToolCall) (r : ToolResult)
        → Agree o (observe near models json of_outcome o now a call r).1
    unfolding observe
    observe-Agree o now a call r =
        let input = observation of_outcome a call r in
        elim (Result-cases (publish o.world now input).1) [
          | inl (n, h) ↦ rw (h, observe) (publish-Agree o now input)
          | inr (x, h) ↦ rw (h, observe) (publish-Agree o now input)
        ]

    -- The observation of a tool leaves what its handler did.
    pub use_tool-Agree :
        (o : Org) (now : ℕ) (a : Agent) (call : ToolCall)
        → Agree
            (run near models json true o now a call).1
            (use_tool near models json of_outcome o now a call).1
    unfolding use_tool
    use_tool-Agree o now a call =
        let o' = (run near models json true o now a call).1 in
        elim (Result-cases (run near models json true o now a call).0) [
          | inr (x, h) ↦ rw (h, use_tool) (Agree-refl o')
          | inl (r, h) ↦ elim (Bool-cases (is_direct call)) [
            | inl d ↦ rw (h, d, use_tool) (observe-Agree o' now a call r)
            | inr d ↦ rw (h, d, use_tool) (Agree-refl o')
          ]
        ]

    -- The event `id` of an agent that asks a service.
    abbrev pub request : EventId → AgentId → ServiceId → Body → Event
    request id a to body = record {
      id = id;
      source = agent a;
      target = service to;
      correlation_id = none;
      body = body;
    }

    -- What the services make of the request that stands for a direct call. A creation request always
    -- names a department.
    abbrev pub by_bus : Org → ℕ → EventId → Agent → AgentCreate → ToolCall → Org
    by_bus o now id a spec (update_task_status t to _) = record o {
      world =
          handle models o.world now
            (request id a.id tasks_service (task_transition_request t to none));
    }
    by_bus o now id a spec (create_and_assign_task args) = record o {
      world = handle models o.world now (
          request id a.id tasks_service
            (task_create_request (record args { budget = default_task_budget })));
    }
    by_bus o now id a spec (create_subordinate_agent dept) =
        let e = request id a.id agent_service (agent_creation_request spec) in
        Agents.dispatch o now e e.body
    by_bus o now id a spec call = o

    -- A creation request whose department is the one that the call gives.
    abbrev pub Fits : AgentCreate → ToolCall → Type 0
    Fits spec (create_subordinate_agent dept) = dept ≡ some spec.department
    Fits spec call = Unit

    task-Agree :
        (o : Org) (now : ℕ) (e : Event) (args : TaskCreate)
        → Agree (run_create_task json o now args).1 (record o {
          world = handle_create models o.world now e (record args { budget = default_task_budget });
        })
    unfolding run_create_task handle_create
    task-Agree o now e args =
        let (c, w) = Tasks.create o.world now (record args { budget = default_task_budget }) in
        publish-Agree (record o { world = w }) now _

    transition-Agree :
        (o : Org) (now : ℕ) (e : Event) (id : TaskId) (to : TaskStatus) (a : AgentId)
        → e.source ≡ agent a
        → Agree
            (run_transition near models json o now a id to).1
            (record o { world = handle_transition models o.world now e id to none })
    unfolding run_transition handle_transition
    transition-Agree o now e id to a h = rw (sym h) (
        let (m, db) = transition models o.world.db now e.source id to none in
        publish-Agree (record o { world = record o.world { db = db } }) now _)

    agent-Agree :
        (o : Org) (now : ℕ) (id : EventId) (creator : AgentId) (spec : AgentCreate)
        → Agree (run_create_agent json o now creator (some spec.department)).1 (
            handle_creation o now
              (request id creator agent_service (agent_creation_request spec))
              spec)
    unfolding run_create_agent handle_creation Agents.respond
    agent-Agree o now id creator spec =
        let made = Agents.create o now creator (some spec.department) in
        elim (Result-cases made.0) [
          | inl (s, k) ↦ rw (k, run_create_agent, handle_creation) (publish-Agree made.1 now _)
          | inr (x, k) ↦ rw (k, run_create_agent, handle_creation) (Agree-refl made.1)
        ]

    -- Each handler against its request.
    handler-Agree :
        (o : Org) (now : ℕ) (id : EventId) (a : Agent) (spec : AgentCreate) (call : ToolCall)
        → is_direct call ≡ true
        → Fits spec call
        → Agree (run near models json true o now a call).1 (by_bus o now id a spec call)
    unfolding run handle Tasks.dispatch Agents.dispatch
    handler-Agree o now id a spec (update_task_status t to _) d f =
        transition-Agree o now (request id a.id tasks_service (task_transition_request t to none)) t
          to a.id refl
    handler-Agree o now id a spec (create_and_assign_task args) d f =
        task-Agree o now
          (request id a.id tasks_service
            (task_create_request (record args { budget = default_task_budget })))
          args
    handler-Agree o now id a spec (create_subordinate_agent dept) d f =
        rw f (agent-Agree o now id a.id spec)
    handler-Agree o now id a spec call d f = absurd (cc d)

    -- A direct tool leaves the tasks, the agents, the counters and the launched agents as the bus request
    -- for the same operation does, if that request names the department that the call names.
    pub direct-Agree :
        (o : Org) (now : ℕ) (id : EventId) (a : Agent) (spec : AgentCreate) (call : ToolCall)
        → is_direct call ≡ true
        → Fits spec call
        → Agree (use_tool near models json of_outcome o now a call).1 (by_bus o now id a spec call)
    direct-Agree o now id a spec call d f =
        Agree-trans _ _ _ (Agree-sym _ _ (use_tool-Agree o now a call))
          (handler-Agree o now id a spec call d f)
