-- ===== src/Agents/Repository.antt =====
-- repositories/agent/agent.repository.ts: the `agents` table. `Date.now()` is the argument `now`.
use xevos.Base.{
  ℕ, Bool, false, ◌&&◌, Option, none, some, List, [], find, keep, ◌==◌, nat_eq, or_else,
}
use xevos.Schema.Org.{
  Role, role_eq, Department, department_eq, AgentStatus, agent_status_eq, active, definition_of,
  AgentId, agent_id, agent_id_eq, to_agent, to_principal, Agent, AgentCreate, executive,
  organization,
}
use xevos.Schema.Event.{constraint_violation, agent_not_found}
use xevos.Sql.{Sql}
use xevos.Sql.Rows.{by_key, get}
use xevos.Db.{Database, Result, ok, err, role_counter, counter_key_eq}
use xevos.Db.Counters.{next_id, counter_key}

abbrev pub agent_key : Agent → AgentId
agent_key a = a.id

-- The record that `createAgent` inserts.
abbrev pub new_agent : AgentCreate → ℕ → ℕ → Agent
new_agent a n now = record {
  id = agent_id a.role a.department n;
  role = a.role;
  department = a.department;
  created_at = now;
  objective = a.objective;
  kpis = a.kpis;
  responsibilities = a.responsibilities;
  status = active;
  reports_to = a.reports_to;
  manages = [];
  tools = a.tools;
}

-- `Partial<AgentCreate>`, as far as the program fills it: `manages` and `status`.
pub record AgentPatch : Type 0 where
  pub manages : Option (List AgentId)
  pub status : Option AgentStatus

abbrev pub apply_agent_patch : AgentPatch → Agent → Agent
apply_agent_patch p a = record a {
  status = or_else p.status a.status;
  manages = or_else p.manages a.manages;
}

abbrev pub is_ceo : Agent → Bool
is_ceo a = a.role == executive && a.department == organization

abbrev reports : AgentId → Agent → Bool
reports m a = elim a.reports_to [ to_principal ↦ false | to_agent b ↦ b == m ]

module _ ⦃sql : Sql⦄ where
  -- `get`; a missing row is the error `Agent "…" not found`
  unfoldable pub get_agent : Database → AgentId → Result Agent
  get_agent db id = elim (get agent_key id (sql.rows db.agents)) [
    | none ↦ err (agent_not_found id)
    | some a ↦ ok a
  ]

  -- `getCEO`; `none` is the error "CEO agent not found"
  abbrev pub get_ceo : Database → Option Agent
  get_ceo db = find is_ceo (sql.rows db.agents)

  abbrev pub list_agents : Database → List Agent
  list_agents db = sql.rows db.agents

  -- `createAgent`, one transaction
  unfoldable pub create_agent : Database → ℕ → AgentCreate → Result (Agent × Database)
  create_agent db now spec =
      elim (next_id (role_counter (definition_of spec.role spec.department)) db.counters) [
        | none ↦ err constraint_violation
        | some (n, counters) ↦
            let a = new_agent spec n now in
            elim (sql.insert (by_key agent_key a.id) a db.agents) [
              | none ↦ err constraint_violation
              | some agents ↦ ok (a, record db { agents = agents; counters = counters })
            ]
      ]

  -- `update`: the row after the update
  unfoldable pub update_agent : Database → AgentId → AgentPatch → Result Agent × Database
  update_agent db id patch =
      let agents = sql.update (by_key agent_key id) (apply_agent_patch patch) db.agents in
      (
        elim (get agent_key id (sql.rows agents)) [
          | none ↦ err (agent_not_found id)
          | some a ↦ ok a
        ],
        record db { agents = agents },
      )

  -- `delete`: an error where no row was deleted
  unfoldable pub delete_agent : Database → AgentId → Result AgentId × Database
  delete_agent db id = (
    elim (get agent_key id (sql.rows db.agents)) [
      | none ↦ err (agent_not_found id)
      | some a ↦ ok a.id
    ],
    record db { agents = sql.delete (by_key agent_key id) db.agents },
  )

  -- `seedDefaults`: the executive, and its counter at 2, in one transaction
  unfoldable pub seed_defaults : Database → ℕ → AgentCreate → Result Database
  seed_defaults db now default =
      elim (find (λ a. a.role == default.role && a.department == default.department)
        (sql.rows db.agents)) [
          | some _ ↦ ok db
          | none ↦
              let key = role_counter (definition_of default.role default.department) in
              let a = new_agent default 1 now in
              elim (sql.insert (by_key agent_key a.id) a db.agents) [
                | none ↦ err constraint_violation
                | some agents ↦
                    elim (sql.insert (by_key counter_key key) (record { key = key; value = 2 })
                      db.counters) [
                        | none ↦ err constraint_violation
                        | some counters ↦ ok (record db { agents = agents; counters = counters })
                      ]
              ]
        ]

  abbrev pub list_agents_by_role : Database → Role → List Agent
  list_agents_by_role db r = keep (λ a. a.role == r) (sql.rows db.agents)

  abbrev pub list_agents_by_department : Database → Department → List Agent
  list_agents_by_department db d = keep (λ a. a.department == d) (sql.rows db.agents)

  abbrev pub list_agents_by_status : Database → AgentStatus → List Agent
  list_agents_by_status db s = keep (λ a. a.status == s) (sql.rows db.agents)

  abbrev pub list_reports : Database → AgentId → List Agent
  list_reports db m = keep (reports m) (sql.rows db.agents)
