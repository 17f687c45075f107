-- ===== src/Agents/Seed.antt =====
-- `seedDefaults` of repositories/agent/agent.repository.ts and the default agent: the organization that the program starts from.
use xevos.Base.{
  text, ℕ, ◌≡◌, refl, ap, sym, ◌∙◌, subst, false, none, [], ◌∷◌, ◌++◌, any, find, arith, ◌&&◌, ◌==◌,
}
use xevos.Schema.Org.{
  agent_id_eq, AgentCreate, executive, organization, active, role_eq, department_eq, to_principal,
  definition_of,
}
use xevos.Agents.Roles.{role_tools}
use xevos.Sql.{Sql}
use xevos.Sql.Rows.{by_key}
use xevos.Db.{Database, ok, role_counter, counter_key_eq}
use xevos.Db.Counters.{counter_key}
use xevos.Agents.Repository.{agent_key, new_agent, seed_defaults}
use xevos.Agents.Orderly.{IsOrderly}

-- `DEFAULT_AGENT` of repositories/agent/default-agent.ts
abbrev pub default_agent : AgentCreate
default_agent = record {
  role = executive;
  department = organization;
  objective =
      text
        "Act as the Chief Executive Officer of the organization. Serve as the primary interface with the principal, translate principal objectives into organizational goals, ensure work is delegated through the management hierarchy, and verify that all outcomes align with the principal's intent.";
  kpis =
      text "Principal objectives achieved"
      ∷ text "Organizational goal completion rate"
      ∷ text "Cross-department alignment"
      ∷ text "Task delivery success rate"
      ∷ text "Escalation resolution rate"
      ∷ [];
  responsibilities =
      text "Communicate directly with the principal"
      ∷ text "Interpret principal goals and requirements"
      ∷ text "Define organizational strategy and priorities"
      ∷ text "Delegate work to department leadership"
      ∷ text "Coordinate execution across departments"
      ∷ text "Monitor organizational progress"
      ∷ text "Review escalations and blockers"
      ∷ text "Approve major decisions"
      ∷ text "Ensure adherence to organizational processes"
      ∷ text "Ensure all delivered outcomes satisfy principal requirements"
      ∷ [];
  manages = [];
  status = active;
  reports_to = to_principal;
  tools = role_tools executive;
}

module _ ⦃sql : Sql⦄ where
  -- Seeding succeeds on a database without agents and counters, for an executive that reports to the
  -- principal, and leaves that one agent, an organization in order.
  pub seed_lem :
      (db : Database) (now : ℕ) (default : AgentCreate)
      → sql.rows db.agents ≡ []
      → sql.rows db.counters ≡ []
      → default.role ≡ executive
      → default.reports_to ≡ to_principal
      → (db' : Database) × (seed_defaults db now default ≡ ok db')
        × (sql.rows db'.agents ≡ new_agent default 1 now ∷ [])
        × IsOrderly (sql.rows db'.agents)
  unfolding seed_defaults
  seed_lem db now default no_agents no_counters top above =
      let a = new_agent default 1 now in
      let key = role_counter (definition_of default.role default.department) in
      let free : any (by_key agent_key a.id) (sql.rows db.agents) ≡ false = rw no_agents refl in
      let free' : any (by_key counter_key key) (sql.rows db.counters) ≡ false =
        rw no_counters refl in
      let (agents, inserted, rows) = sql.insert_fresh (by_key agent_key a.id) a db.agents free in
      let (counters, counted, _) =
        sql.insert_fresh (by_key counter_key key) (record { key = key; value = 2 }) db.counters
          free' in
      let none_yet : find (λ b. b.role == default.role && b.department == default.department)
            (sql.rows db.agents)
          ≡ none =
        rw no_agents refl in
      let only : sql.rows agents ≡ a ∷ [] = rows ∙ ap (λ l. l ++ (a ∷ [])) no_agents in
      (
        record db { agents = agents; counters = counters },
        ground (arith, none_yet, inserted, counted),
        only,
        subst IsOrderly (sym only) (record {
          size = omega arith;
          placed = (((refl, refl), rw above top), tt);
          span = (omega arith, tt);
        }),
      )
