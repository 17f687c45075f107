-- ===== src/Agents/Tests.antt =====
-- The agent service on an organization of an executive and a head.
use xevos.Base.{arith, ◌≡◌, ◌≢◌, refl, true, none, some, [], ◌∷◌, text, ℕ_discrete}
use xevos.Schema.Org.{
  AgentId, Agent, agent, service, agent_id, executive, head, manager, worker, organization,
  engineering, research, agent_service, to_agent, to_principal, active, AgentId-discrete,
  Role-discrete, Department-discrete,
}
use xevos.Schema.Event.{
  Event, Reason, unknown_creator, depth_limit, agent_creation_request, agent_termination_request,
}
use xevos.Sql.InMemory.{list_sql}
use xevos.Db.{ok, Database, CounterKey-discrete}
use xevos.Db.Counters.{next_id}
use xevos.Bus.Core.{recover, subscribe, open_bus}
use xevos.Bus.Startup.{boot, subscribe_all}
use xevos.Agents.Repository.{get_agent, create_agent, update_agent}
use xevos.Agents.Service.{
  Org, Spawned, not_spawned, refused, depth_from, depth_of, admit, hire, create, serve, subordinate,
}
use xevos.Agents.Orderly.{IsOrderly}
use xevos.Agents.Repository.{new_agent, seed_defaults}
use xevos.Agents.Seed.{default_agent, seed_lem}
use xevos.Agents.Policy.{Orderly, serve-Orderly}
use xevos.Agents.Depth.{depth_limit_unreachable}
use xevos.Agents.Hiring.{Hired, Explains, spawn_refused, spawn_approved}

abbrev ceo : Agent
ceo = record {
  id = agent_id executive organization 1;
  role = executive;
  department = organization;
  created_at = 1;
  objective = text "serve";
  kpis = [];
  responsibilities = [];
  status = active;
  reports_to = to_principal;
  manages = agent_id head research 1 ∷ [];
  tools = [];
}

abbrev lead : Agent
lead = record {
  id = agent_id head research 1;
  role = head;
  department = research;
  created_at = 2;
  objective = text "lead";
  kpis = [];
  responsibilities = [];
  status = active;
  reports_to = to_agent (agent_id executive organization 1);
  manages = [];
  tools = [];
}

abbrev db : Database
db = record {
  agents = ceo ∷ lead ∷ [];
  tasks = [];
  memories = [];
  warehouse = [];
  vectors = [];
  prompts = [];
  events = [];
  inbox = [];
  counters = [];
}

abbrev org : Org
org = record {
  world = (recover (boot db (service agent_service ∷ []))).1;
  launched = ceo ∷ lead ∷ [];
}

abbrev request : Event
request = record {
  id = 9;
  source = agent lead.id;
  target = service agent_service;
  correlation_id = none;
  body = agent_creation_request (subordinate ceo.id head engineering);
}

abbrev farewell : Event
farewell = record request { body = agent_termination_request ceo.id (text "done") }

two-IsOrderly : IsOrderly (ceo ∷ lead ∷ [])
unfolding Role-discrete Department-discrete
two-IsOrderly = record {
  size = omega arith;
  placed = (((refl, refl), refl), ((((refl, refl), (refl, refl))), tt));
  span = (omega arith, (omega arith, tt));
}

org-Orderly : Orderly org
unfolding recover boot subscribe_all subscribe open_bus
org-Orderly = two-IsOrderly

serve-Orderly_example : Orderly (serve org ((5, request) ∷ (6, farewell) ∷ (7, request) ∷ []))
serve-Orderly_example =
    serve-Orderly org ((5, request) ∷ (6, farewell) ∷ (7, request) ∷ []) org-Orderly

depth_limit_unreachable_example : admit db lead.id none ≢ refused depth_limit
depth_limit_unreachable_example = depth_limit_unreachable db lead.id none two-IsOrderly

abbrev nobody : AgentId
nobody = agent_id worker research 1

spawn_refused_example :
    ((create org 5 nobody none).1 ≡ org)
    × ((not_spawned (unknown_creator (agent nobody))).agent_id ≡ none)
    × ((r : Reason) × ((not_spawned (unknown_creator (agent nobody))).reason ≡ some r)
        × Explains org.world.db nobody none r)
unfolding recover boot subscribe_all subscribe open_bus create admit get_agent AgentId-discrete
    ℕ_discrete
spawn_refused_example =
    spawn_refused org 5 nobody none (not_spawned (unknown_creator (agent nobody))) refl refl

abbrev hired : Spawned
hired = record { approved = true; agent_id = some (agent_id manager research 1); reason = none }

spawn_approved_example : Hired org 5 lead.id none hired (create org 5 lead.id none).1
unfolding recover boot subscribe_all subscribe open_bus create admit get_agent AgentId-discrete
    ℕ_discrete depth_of depth_from hire create_agent update_agent next_id CounterKey-discrete
spawn_approved_example = spawn_approved org 5 lead.id none hired refl refl

seed_lem_example :
    (db' : Database) × (seed_defaults (record db { agents = [] }) 1 default_agent ≡ ok db')
    × (db'.agents ≡ new_agent default_agent 1 1 ∷ [])
    × IsOrderly db'.agents
seed_lem_example = seed_lem (record db { agents = [] }) 1 default_agent refl refl refl refl
