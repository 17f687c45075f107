-- ===== src/Agents/Ladder.antt =====
-- Where an agent may stand in the organization, and what the guards of `create` in
-- core/services/agent.ts let through.
use xevos.Base.{ℕ, inl, inr, ◌≡◌, ◌<◌, true, ◌||◌, Option, some, length, ◌==◌, arith, nat_eq}
use xevos.Schema.Org.{
  Role, role_eq, executive, head, manager, worker, Department, department_eq, AgentId, agent_id,
  Agent, AgentCreate, ReportTargetId, to_agent, to_principal,
}
use xevos.Sql.{Sql}
use xevos.Db.{Database, ok, Result-cases}
use xevos.Agents.Repository.{get_agent}
use xevos.Agents.Roles.{next_role}
use xevos.Agents.Service.{
  max_depth, max_total_agents, max_direct_reports, depth_of, admitted, subordinate, department_for,
  admit,
}

-- An id spells out the role and the department of its agent.
abbrev pub Named : AgentId → Role → Department → Type 0
Named (agent_id q e n) r d = (q ≡ r) × (e ≡ d)

-- The executive reports to the principal; anyone else to an agent one rung above, of the same
-- department unless that agent is the executive.
abbrev pub Under : ReportTargetId → Role → Department → Type 0
Under to_principal r d = r ≡ executive
Under (to_agent (agent_id q e n)) r d = (next_role q ≡ some r) × ((q == executive || e == d) ≡ true)

abbrev pub Placed : Agent → Type 0
Placed a = Named a.id a.role a.department × Under a.reports_to a.role a.department

pub subordinate-Under :
    (id : AgentId) (q r : Role) (e d : Department) (dept : Option Department)
    → Named id q e
    → next_role q ≡ some r
    → department_for q e dept ≡ some d
    → Under (to_agent id) r d
subordinate-Under (agent_id executive e n) q r e' d dept h hr hd =
    (ground (arith, h.0, hr), ground arith)
subordinate-Under (agent_id head e n) q r e' d dept h hr hd =
    (ground (arith, h.0, hr), ground (arith, h.0, h.1, hd))
subordinate-Under (agent_id manager e n) q r e' d dept h hr hd =
    (ground (arith, h.0, hr), ground (arith, h.0, h.1, hd))
subordinate-Under (agent_id worker e n) q r e' d dept h hr hd =
    (ground (arith, h.0, hr), ground (arith, h.0, h.1, hd))

module _ ⦃sql : Sql⦄ where
  -- What holds of a creation that the guards let through.
  pub record Admitted (db : Database) (creator : AgentId) (dept : Option Department) (c : Agent)
      (spec : AgentCreate) : Type 0 where
    pub found : get_agent db creator ≡ ok c
    pub rung : next_role c.role ≡ some spec.role
    pub department : department_for c.role c.department dept ≡ some spec.department
    pub room : length (sql.rows db.agents) < max_total_agents
    pub span : length c.manages < max_direct_reports
    pub depth : ℕ
    pub measured : depth_of db c ≡ ok depth
    pub shallow : depth < max_depth
    pub spec_is : spec ≡ subordinate c.id spec.role spec.department

  admit_depth :
      (db : Database) (creator : AgentId) (dept : Option Department) (c : Agent)
      (spec : AgentCreate)
      → admit db creator dept ≡ admitted c spec
      → (k : ℕ) × (depth_of db c ≡ ok k) × (k < max_depth)
  unfolding admit
  admit_depth db creator dept c spec h = elim (Result-cases (depth_of db c)) [
    | inl (k, e) ↦ (k, e, ground (arith, h, e))
    | inr (x, e) ↦ absurd (ground (arith, h, e))
  ]

  pub admit_lem :
      (db : Database) (creator : AgentId) (dept : Option Department) (c : Agent)
      (spec : AgentCreate)
      → admit db creator dept ≡ admitted c spec
      → Admitted db creator dept c spec
  unfolding admit
  admit_lem db creator dept c spec h = record {
    found = ground (arith, h);
    rung = ground (arith, h);
    department = ground (arith, h);
    room = ground (arith, h);
    span = ground (arith, h);
    depth = (admit_depth db creator dept c spec h).0;
    measured = (admit_depth db creator dept c spec h).1;
    shallow = (admit_depth db creator dept c spec h).2;
    spec_is = ground (arith, h);
  }
