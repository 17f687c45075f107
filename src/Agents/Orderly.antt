-- ===== src/Agents/Orderly.antt =====
-- The organization stays a bounded tree: `create`, `suspend`, `resume` and `terminate` of
-- core/services/agent.ts keep the ladder, the span of control and the size.
use xevos.Base.{
  ℕ, ◌≡◌, ◌≤◌, ap, sym, ◌∙◌, Bool, not, Option-cases, Bool-cases, List, [], ◌∷◌, ◌++◌, any, length,
  All, All-keep, length-keep-le, arith, inl, inr, nat_eq, or_else,
}
use xevos.Schema.Org.{AgentId, agent_id_eq, Agent, AgentCreate}
use xevos.Sql.{Sql}
use xevos.Sql.Rows.{by_key, length-set_where, All-set_where}
use xevos.Db.{Database, ok, role_counter}
use xevos.Schema.Org.{definition_of}
use xevos.Db.Counters.{next_id}
use xevos.Agents.Repository.{
  agent_key, AgentPatch, apply_agent_patch, new_agent, create_agent, update_agent, delete_agent,
}
use xevos.Agents.Service.{max_total_agents, max_direct_reports}
use xevos.Agents.Ladder.{Placed}

module _ ⦃sql : Sql⦄ where
  pub record IsOrderly (agents : List Agent) : Type 0 where
    pub size : length agents ≤ max_total_agents
    pub placed : All Placed agents
    pub span : All (λ a. length a.manages ≤ max_direct_reports) agents

  -- What a successful `createAgent` has done to the table.
  pub create_agent-rows :
      (db : Database) (now : ℕ) (spec : AgentCreate) (a : Agent) (db' : Database)
      → create_agent db now spec ≡ ok (a, db')
      → (n : ℕ) × (a ≡ new_agent spec n now)
        × (sql.rows db'.agents ≡ sql.rows db.agents ++ (a ∷ []))
  unfolding create_agent
  create_agent-rows db now spec a db' h =
      elim (Option-cases
        (next_id (role_counter (definition_of spec.role spec.department)) db.counters)) [
          | inl e ↦ absurd (ground (arith, e, h))
          | inr ((n, counters), e) ↦
              let r = new_agent spec n now in
              elim (Bool-cases (any (by_key agent_key r.id) (sql.rows db.agents))) [
                | inl taken ↦ absurd (
                    ground
                      (arith, e, h, sql.insert_clash (by_key agent_key r.id) r db.agents taken))
                | inr free ↦
                    let (agents, inserted, rows) =
                      sql.insert_fresh (by_key agent_key r.id) r db.agents free in
                    let same : (a ≡ r) × (db'.agents ≡ agents) =
                      (ground (arith, e, h, inserted), ground (arith, e, h, inserted)) in
                    (
                      n,
                      same.0,
                      ap sql.rows same.1
                          ∙ (rows ∙ ap (λ x. sql.rows db.agents ++ (x ∷ [])) (sym same.0)),
                    )
              ]
        ]

  -- An update of one agent's fields.
  pub update-IsOrderly :
      (db : Database) (id : AgentId) (p : AgentPatch)
      → length (or_else p.manages []) ≤ max_direct_reports
      → IsOrderly (sql.rows db.agents)
      → IsOrderly (sql.rows (update_agent db id p).1.agents)
  unfolding update_agent
  update-IsOrderly db id p short v =
      rw (sql.rows-update (by_key agent_key id) (apply_agent_patch p) db.agents) (record {
        size = omega (
          arith,
          v.size,
          length-set_where agent_key id (apply_agent_patch p) (sql.rows db.agents),
        );
        placed =
            All-set_where agent_key Placed id (apply_agent_patch p) (sql.rows db.agents) (λ r h. h)
              v.placed;
        span =
            All-set_where agent_key (λ a. length a.manages ≤ max_direct_reports) id
              (apply_agent_patch p) (sql.rows db.agents) (λ r h. ground (arith, short, h)) v.span;
      })

  pub delete-IsOrderly :
      (db : Database) (id : AgentId)
      → IsOrderly (sql.rows db.agents)
      → IsOrderly (sql.rows (delete_agent db id).1.agents)
  unfolding delete_agent
  delete-IsOrderly db id v =
      let gone : Agent → Bool = λ r. not (by_key agent_key id r) in
      rw (sql.rows-delete (by_key agent_key id) db.agents) (record {
        size = omega (arith, v.size, length-keep-le gone (sql.rows db.agents));
        placed = All-keep Placed gone (sql.rows db.agents) v.placed;
        span =
            All-keep (λ a. length a.manages ≤ max_direct_reports) gone (sql.rows db.agents) v.span;
      })
