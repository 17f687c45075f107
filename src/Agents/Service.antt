-- ===== src/Agents/Service.antt =====
-- core/services/agent.ts: the spawn policy, and the service that creates, suspends, resumes and
-- terminates agents. A handler runs to its end before the next; what it throws is logged.
use xevos.Base.{
  ◌≡◌, refl, ◌⊎◌, inl, inr, ℕ, zero, suc, Bool, true, false, not, Option, none, some, List, [], ◌∷◌,
  ◌++◌, any, keep, length, leb, ◌==◌, if◌then◌else◌,
}
use xevos.Schema.Org.{
  Role, executive, Department, AgentStatus, agent_status_eq, active, suspended, AgentId,
  agent_id_eq, Agent, AgentCreate, EndpointId, agent, service, agent_service, to_agent,
  to_principal,
}
use xevos.Schema.Event.{
  Event, Body, Reason, unknown_creator, leaf_role, org_size_limit, direct_reports_limit,
  depth_limit, department_required, agent_creation_request, agent_creation_response,
  agent_suspension_request, agent_suspension_response, agent_resume_request, agent_resume_response,
  agent_termination_request, agent_termination_response,
}
use xevos.Sql.{Sql}
use xevos.Db.{Database, Result, ok, err}
use xevos.Bus.Core.{World, publish, subscribe, unsubscribe}
use xevos.Agents.Repository.{
  AgentPatch, get_agent, list_agents, create_agent, update_agent, delete_agent,
}
use xevos.Agents.Roles.{
  next_role, static_objective, static_kpis, static_responsibilities, tool_names_for,
}

abbrev pub max_depth : ℕ
max_depth = 3

abbrev pub max_direct_reports : ℕ
max_direct_reports = 8

abbrev pub max_total_agents : ℕ
max_total_agents = 40

pub record Spawned : Type 0 where
  pub approved : Bool
  pub agent_id : Option AgentId
  pub reason : Option Reason

abbrev pub not_spawned : Reason → Spawned
not_spawned r = record { approved = false; agent_id = none; reason = some r }

-- How the guards of `create` end: with a reason, with an exception, or with the creator (found by
-- `creatorId`, which is its `id`) and the record to create.
pub data Verdict : Type 0 where
  refused thrown : Reason → Verdict
  admitted : Agent → AgentCreate → Verdict

-- The record that `create` hands to `createAgent`.
abbrev pub subordinate : AgentId → Role → Department → AgentCreate
subordinate creator r d = record {
  role = r;
  department = d;
  objective = static_objective r d;
  kpis = static_kpis r;
  responsibilities = static_responsibilities r;
  reports_to = to_agent creator;
  tools = tool_names_for r d;
  manages = [];
  status = active;
}

-- Only the executive chooses a department.
abbrev pub department_for : Role → Department → Option Department → Option Department
department_for executive own d = d
department_for _ own d = some own

module _ ⦃sql : Sql⦄ where
  -- The service's state: the world, and the configurations with which agents were launched.
  pub record Org : Type 0 where
    pub world : World
    pub launched : List Agent

  -- The loop of `depthOf`, which makes at most `left` further turns.
  unfoldable pub depth_from : Database → ℕ → ℕ → Agent → Result ℕ
  depth_from db zero depth a = ok depth
  depth_from db (suc left) depth a = elim a.reports_to [
    | to_principal ↦ ok depth
    | to_agent m ↦ elim (get_agent db m) [ err r ↦ err r | ok b ↦ depth_from db left (suc depth) b ]
  ]

  -- `depthOf`: the loop runs while `depth <= MAX_TOTAL_AGENTS`.
  unfoldable pub depth_of : Database → Agent → Result ℕ
  depth_of db a = depth_from db (suc max_total_agents) 0 a

  abbrev pub admit_at : Database → Agent → Role → Option Department → Result ℕ → Verdict
  admit_at db c r dept (err x) = thrown x
  admit_at db c r dept (ok depth) =
      if not (leb (suc depth) max_depth)
      then refused depth_limit
      else elim (department_for c.role c.department dept) [
        | none ↦ refused department_required
        | some d ↦ admitted c (subordinate c.id r d)
      ]

  abbrev pub admit_as : Database → Agent → Option Role → Option Department → Verdict
  admit_as db c none dept = refused (leaf_role c.role)
  admit_as db c (some r) dept =
      if leb max_total_agents (length (list_agents db))
      then refused org_size_limit
      else if leb max_direct_reports (length c.manages)
      then refused (direct_reports_limit c.id)
      else admit_at db c r dept (depth_of db c)

  -- The guards of `create`.
  unfoldable pub admit : Database → AgentId → Option Department → Verdict
  admit db creator dept = elim (get_agent db creator) [
    | err _ ↦ refused (unknown_creator (agent creator))
    | ok c ↦ admit_as db c (next_role c.role) dept
  ]

  -- `launch`: an agent that was launched before is left as it runs.
  unfoldable pub launch : Org → Agent → Org
  launch o a = if any (λ b. b.id == a.id) o.launched then o else record {
    world = record o.world { bus = (subscribe o.world.bus (agent a.id)).1 };
    launched = o.launched ++ (a ∷ []);
  }

  abbrev pub with_db : Org → Database → Org
  with_db o db = record o { world = record o.world { db = db } }

  -- The two writes of `create` and the launch.
  unfoldable pub hire : Org → ℕ → Agent → AgentCreate → Result Spawned × Org
  hire o now c spec = elim (create_agent o.world.db now spec) [
    | err r ↦ (err r, o)
    | ok (a, db) ↦
        let (updated, db') =
          update_agent db c.id
            (record { manages = some (c.manages ++ (a.id ∷ [])); status = none }) in
        elim updated [
          | err r ↦ (err r, with_db o db')
          | ok _ ↦ (
            ok (record { approved = true; agent_id = some a.id; reason = none }),
            launch (with_db o db') a,
          )
        ]
  ]

  -- `create`; `err` is an exception that its caller sees.
  unfoldable pub create : Org → ℕ → AgentId → Option Department → Result Spawned × Org
  create o now creator dept = elim (admit o.world.db creator dept) [
    | refused r ↦ (ok (not_spawned r), o)
    | thrown r ↦ (err r, o)
    | admitted c spec ↦ hire o now c spec
  ]

  -- `this.publish` at the end of a handler
  unfoldable pub respond : Org → ℕ → Event → Body → Org
  respond o now e body = record o {
    world =
        (publish o.world now (record {
          source = service agent_service;
          target = e.source;
          correlation_id = some e.id;
          body = body;
        })).0;
  }

  -- `event.source as AgentId`: an endpoint that is no agent has no row to be found by.
  abbrev pub create_from : Org → ℕ → EndpointId → Option Department → Result Spawned × Org
  create_from o now (agent a) dept = create o now a dept
  create_from o now e dept = (ok (not_spawned (unknown_creator e)), o)

  -- `handleCreation`
  unfoldable pub handle_creation : Org → ℕ → Event → AgentCreate → Org
  handle_creation o now e spec =
      let (result, o') = create_from o now e.source (some spec.department) in
      elim result [
        | err _ ↦ o'
        | ok s ↦ respond o' now e (agent_creation_response s.approved s.agent_id s.reason)
      ]

  abbrev pub status_change : AgentStatus → AgentPatch
  status_change s = record { manages = none; status = some s }

  -- `handleSuspension`: the row changes; the agent that runs is not told.
  unfoldable pub handle_suspension : Org → ℕ → Event → AgentId → Org
  handle_suspension o now e id =
      let (updated, db) = update_agent o.world.db id (status_change suspended) in
      elim updated [
        | err _ ↦ with_db o db
        | ok _ ↦ respond (with_db o db) now e (agent_suspension_response true none)
      ]

  -- `handleResume`
  unfoldable pub handle_resume : Org → ℕ → Event → AgentId → Org
  handle_resume o now e id =
      let (updated, db) = update_agent o.world.db id (status_change active) in
      elim updated [
        | err _ ↦ with_db o db
        | ok a ↦ respond (launch (with_db o db) a) now e (agent_resume_response true none)
      ]

  -- `this.agents.get(agentId)?.stop(); this.agents.delete(agentId)`
  unfoldable pub halt : Org → AgentId → Org
  halt o id =
      if any (λ b. b.id == id) o.launched
      then record {
        world = record o.world { bus = unsubscribe o.world.bus (agent id) };
        launched = keep (λ b. not (b.id == id)) o.launched;
      }
      else o

  -- `handleTermination`
  unfoldable pub handle_termination : Org → ℕ → Event → AgentId → Org
  handle_termination o now e id =
      let o' = halt o id in
      let (deleted, db) = delete_agent o'.world.db id in
      elim deleted [
        | err _ ↦ with_db o' db
        | ok _ ↦ respond (with_db o' db) now e (agent_termination_response true none)
      ]

  -- `handle`
  unfoldable pub dispatch : Org → ℕ → Event → Body → Org
  dispatch o now e (agent_creation_request spec) = handle_creation o now e spec
  dispatch o now e (agent_suspension_request id _) = handle_suspension o now e id
  dispatch o now e (agent_resume_request id) = handle_resume o now e id
  dispatch o now e (agent_termination_request id _) = handle_termination o now e id
  dispatch o now e _ = o

  -- The loop of `consume` over the events of its mailbox.
  unfoldable pub serve : Org → List (ℕ × Event) → Org
  serve o [] = o
  serve o ((now, e) ∷ es) = serve (dispatch o now e e.body) es

  -- The constructor: the active agents are launched.
  unfoldable pub launch_all : Org → List Agent → Org
  launch_all o [] = o
  launch_all o (a ∷ rest) = launch_all (if a.status == active then launch o a else o) rest

-- To split on a verdict and keep the equation.
pub Verdict-cases :
    (v : Verdict)
    → ((c : Agent) × (spec : AgentCreate) × (v ≡ admitted c spec))
      ⊎ (((r : Reason) × (v ≡ refused r)) ⊎ ((r : Reason) × (v ≡ thrown r)))
Verdict-cases (admitted c spec) = inl (c, spec, refl)
Verdict-cases (refused r) = inr (inl (r, refl))
Verdict-cases (thrown r) = inr (inr (r, refl))
