-- ===== src/Samples.antt =====
-- Data for the examples of several components: a manager with one worker and one task.
use xevos.Base.{
  ℕ, ◌≡◌, ◌≤◌, none, some, List, [], ◌∷◌, length, length-take, take, map, text, Text, arith,
}
use xevos.Schema.Org.{
  AgentId, Agent, EndpointId, agent, service, agent_id, manager, worker, engineering, tasks_service,
  agent_service, auditor_service, principal, to_agent, to_principal, active,
}
use xevos.Schema.Task.{Task, in_progress, normal}
use xevos.Schema.Event.{message}
use xevos.Schema.Memory.{VectorRow}
use xevos.Schema.Json.{Json}
use xevos.Sql.InMemory.{list_sql}
use xevos.Db.{Database, EventRow, task_counter}
use xevos.Bus.Core.{World, recover}
use xevos.Bus.Startup.{boot}
use xevos.Memory.Service.{Models}
use xevos.Memory.Recall.{Nearest}
use xevos.Agents.Service.{Org}
use xevos.Toolbox.Results.{Outcome}

abbrev pub boss : AgentId
boss = agent_id manager engineering 1

abbrev pub hand : AgentId
hand = agent_id worker engineering 1

abbrev pub boss_agent : Agent
boss_agent = record {
  id = boss;
  role = manager;
  department = engineering;
  created_at = 1;
  objective = text "lead";
  kpis = [];
  responsibilities = [];
  status = active;
  reports_to = to_principal;
  manages = hand ∷ [];
  tools = [];
}

abbrev pub hand_agent : Agent
hand_agent = record {
  id = hand;
  role = worker;
  department = engineering;
  created_at = 1;
  objective = text "work";
  kpis = [];
  responsibilities = [];
  status = active;
  reports_to = to_agent boss;
  manages = [];
  tools = [];
}

abbrev pub build : Task
build = record {
  id = 1;
  status = in_progress;
  referce_task = none;
  review = none;
  title = text "build";
  description = text "build it";
  acceptance_criteria = text "it runs" ∷ [];
  dependencies = [];
  assigned_to = some hand;
  priority = normal;
  deadline = none;
  budget = record { max_tokens = 1000; max_usd = 1 };
  created_at = 2;
  updated_at = 2;
}

-- A message of the principal, as the log holds it.
abbrev pub said : EventRow
said = record {
  seq = 3;
  source = principal;
  target = agent boss;
  body = message (text "start");
  correlation_id = none;
  created_at = 2;
}

abbrev pub db : Database
db = record {
  agents = boss_agent ∷ hand_agent ∷ [];
  tasks = build ∷ [];
  memories = [];
  warehouse = [];
  vectors = [];
  prompts = [];
  events = said ∷ [];
  inbox = [];
  counters = record { key = task_counter; value = 1 } ∷ [];
}

abbrev pub consumers : List EndpointId
consumers =
    service tasks_service
    ∷ service agent_service
    ∷ service auditor_service
    ∷ agent boss
    ∷ agent hand
    ∷ []

abbrev pub world : World
world = (recover (boot db consumers)).1

abbrev pub org : Org
org = record { world = world; launched = boss_agent ∷ hand_agent ∷ [] }

abbrev pub rowids : List VectorRow → List ℕ
rowids t = map (λ (v : VectorRow). v.rowid) t

pub first_bounded :
    (t : List VectorRow) (limit : ℕ) (ids : List ℕ)
    → some (take limit (rowids t)) ≡ some ids
    → length ids ≤ limit
first_bounded t limit ids h = ground (arith, h, length-take limit (rowids t))

-- Every vector is as near as another.
abbrev pub near : Nearest
near = record {
  knn = λ t q limit. some (take limit (rowids t));
  knn_bounded = λ t q limit ids h. first_bounded t limit ids h;
}

abbrev pub models : Models
models = record { extract_learning = λ _. none; embed_text = λ t. some t }

abbrev pub json : Json
json = record {
  of_memories = λ rows. text "[]";
  of_patch = λ p. text "{}";
  of_body = λ b. text "{}";
  database_error = text "SQLITE_CONSTRAINT";
  service_error = text "unavailable";
}

abbrev pub of_outcome : Outcome → Text
of_outcome o = text "{}"
