-- ===== src/Tasks/Tests.antt =====
-- The task service on a manager with one worker and one task.
use xevos.Base.{arith, ◌≡◌, refl, none, some, List, [], ◌∷◌, text, ℕ_discrete}
use xevos.Schema.Org.{
  AgentId, Agent, EndpointId, agent, service, principal, agent_id, manager, worker, engineering,
  tasks_service, to_agent, active, EndpointId-discrete, AgentId-discrete,
}
use xevos.Schema.Task.{
  Task, TaskStatus, TaskCreate, TaskPatch, in_progress, assigned, normal, TaskStatus-discrete,
}
use xevos.Schema.Event.{Event, Reason, task_transition_request, task_update_request}
use xevos.Sql.InMemory.{list_sql}
use xevos.Db.{Database, task_counter, CounterKey-discrete}
use xevos.Bus.Core.{World, recover, subscribe, open_bus}
use xevos.Bus.Startup.{boot, subscribe_all}
use xevos.Bus.History.{turns, history-Inv}
use xevos.Memory.Service.{Models}
use xevos.Agents.Repository.{get_agent}
use xevos.Tasks.Repository.{empty_patch, get_task}
use xevos.Tasks.Service.{create, create_for, transition, refusal, manager_of, dispatch}
use xevos.Tasks.Transitions.{Accepted, Explains, transition-Accepted, transition_refused}
use xevos.Tasks.Creation.{CreatedFor, create_lem, create_refused}
use xevos.Tasks.Lifecycle.{serve, closed_is_final, update_bypasses_policy}

abbrev boss : AgentId
boss = agent_id manager engineering 1

abbrev hand : AgentId
hand = agent_id worker engineering 1

abbrev hand_agent : Agent
hand_agent = record {
  id = hand;
  role = worker;
  department = engineering;
  created_at = 1;
  objective = text "work";
  kpis = [];
  responsibilities = [];
  status = active;
  reports_to = to_agent boss;
  manages = [];
  tools = [];
}

abbrev spec : TaskCreate
spec = record {
  referce_task = none;
  title = text "build";
  description = text "build it";
  acceptance_criteria = [];
  dependencies = [];
  priority = normal;
  assigned_to = some hand;
  deadline = none;
  budget = record { max_tokens = 1000; max_usd = 1 };
}

abbrev task_in : TaskStatus → Task
task_in s = record {
  id = 1;
  status = s;
  referce_task = none;
  review = none;
  title = text "build";
  description = text "build it";
  acceptance_criteria = [];
  dependencies = [];
  assigned_to = some hand;
  priority = normal;
  deadline = none;
  budget = record { max_tokens = 1000; max_usd = 1 };
  created_at = 2;
  updated_at = 2;
}

abbrev db_in : TaskStatus → Database
db_in s = record {
  agents = hand_agent ∷ [];
  tasks = task_in s ∷ [];
  memories = [];
  warehouse = [];
  vectors = [];
  prompts = [];
  events = [];
  inbox = [];
  counters = record { key = task_counter; value = 1 } ∷ [];
}

abbrev consumers : List EndpointId
consumers = service tasks_service ∷ agent hand ∷ []

abbrev world_in : TaskStatus → World
world_in s = (recover (boot (db_in s) consumers)).1

abbrev models : Models
models = record { extract_learning = λ _. none; embed_text = λ t. some t }

abbrev request : Event
request = record {
  id = 9;
  source = principal;
  target = service tasks_service;
  correlation_id = none;
  body = task_transition_request 1 in_progress none;
}

transition-Accepted_example :
    Accepted models
      (db_in in_progress)
      5
      (agent boss)
      1
      TaskStatus.completed
      (transition models (db_in in_progress) 5 (agent boss) 1 TaskStatus.completed none).1
unfolding transition refusal manager_of get_task get_agent ℕ_discrete TaskStatus-discrete
    AgentId-discrete EndpointId-discrete
transition-Accepted_example =
    transition-Accepted models (db_in in_progress) 5 (agent boss) 1 TaskStatus.completed none refl

transition_refused_example :
    ((transition models (db_in in_progress) 5 (agent hand) 1 TaskStatus.completed none).1
      ≡ db_in in_progress)
    × ((r : Reason) × ((transition models
            (db_in in_progress)
            5
            (agent hand)
            1
            TaskStatus.completed
            none).0.reason
          ≡ some r)
        × Explains models (db_in in_progress) (agent hand) 1 TaskStatus.completed r)
unfolding transition refusal manager_of get_task get_agent ℕ_discrete TaskStatus-discrete
    AgentId-discrete EndpointId-discrete
transition_refused_example =
    transition_refused models (db_in in_progress) 5 (agent hand) 1 TaskStatus.completed none refl

create_lem_example :
    CreatedFor (world_in assigned) 5 spec hand 2 (create (world_in assigned) 5 spec)
unfolding turns recover boot subscribe_all subscribe open_bus get_agent ℕ_discrete AgentId-discrete
    CounterKey-discrete
create_lem_example =
    create_lem (world_in assigned) 5 spec hand hand_agent
      (history-Inv (db_in assigned) consumers [] tt) (omega arith, tt) refl refl

create_refused_example :
    (create (world_in assigned) 5 (record spec { assigned_to = some boss })).1 ≡ world_in assigned
unfolding turns recover boot subscribe_all subscribe open_bus create create_for get_agent
    AgentId-discrete CounterKey-discrete ℕ_discrete
create_refused_example =
    create_refused (world_in assigned) 5 (record spec { assigned_to = some boss })
      (history-Inv (db_in assigned) consumers [] tt) (omega arith, tt) refl

closed_is_final_example :
    get_task (serve models (world_in TaskStatus.failed) ((7, request) ∷ (8, request) ∷ [])).db 1
    ≡ some (task_in TaskStatus.failed)
unfolding turns recover boot subscribe_all subscribe open_bus get_task ℕ_discrete
closed_is_final_example =
    closed_is_final models (world_in TaskStatus.failed) ((7, request) ∷ (8, request) ∷ []) 1
      (task_in TaskStatus.failed) refl refl (refl, (refl, tt))

-- The principal reopens a completed task.
abbrev reopen : TaskPatch
reopen = record empty_patch { status = some in_progress }

update_bypasses_policy_example :
    get_task
      (dispatch models (world_in TaskStatus.completed) 7 request (task_update_request 1 reopen)).db
      1
    ≡ some (record (task_in in_progress) { updated_at = 7 })
unfolding turns recover boot subscribe_all subscribe open_bus get_task ℕ_discrete
update_bypasses_policy_example =
    update_bypasses_policy models (world_in TaskStatus.completed) 7 request 1 reopen 1
