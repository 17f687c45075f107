-- ===== src/Agents/Depth.antt =====
-- `depthOf` of core/services/agent.ts: on an organization in order the walk ends at the executive after
-- as many steps as the role is below it.
use xevos.Base.{
  ℕ, zero, suc, ◌+◌, ◌≡◌, ◌≢◌, ◌≤◌, subst, refl, Option, Option-cases, some, arith, inl, inr,
}
use xevos.Schema.Org.{
  Role, executive, head, manager, worker, Department, AgentId, agent_id, agent_id_eq, Agent,
  ReportTargetId, to_agent, to_principal,
}
use xevos.Schema.Event.{depth_limit}
use xevos.Sql.{Sql}
use xevos.Sql.Rows.{get_key}
use xevos.Db.{Database, ok, Result-cases}
use xevos.Agents.Roles.{next_role}
use xevos.Agents.Repository.{agent_key, get_agent}
use xevos.Agents.Service.{refused, depth_from, depth_of, admit}
use xevos.Agents.Ladder.{Named, Under, Placed}
use xevos.Agents.Orderly.{IsOrderly}
use xevos.Agents.Policy.{found_Placed}

-- Steps below the executive.
abbrev pub rank : Role → ℕ
rank executive = 0
rank head = 1
rank manager = 2
rank worker = 3

rank-next_role : (q r : Role) → next_role q ≡ some r → rank r ≡ suc (rank q)
rank-next_role executive r h = ground (arith, h)
rank-next_role head r h = ground (arith, h)
rank-next_role manager r h = ground (arith, h)
rank-next_role worker r h = absurd (cc h)

rank-Under :
    (id : AgentId) (q r : Role) (e d : Department)
    → Named id q e
    → Under (to_agent id) r d
    → rank r ≡ suc (rank q)
rank-Under (agent_id p f n) q r e d h u = ground (arith, h.0, rank-next_role p r u.0)

rank_top : (r : Role) → r ≡ executive → rank r ≡ 0
rank_top r h = ground (arith, h)

rank_spawner : (q r : Role) → next_role q ≡ some r → rank q ≤ 2
rank_spawner executive r h = omega arith
rank_spawner head r h = omega arith
rank_spawner manager r h = omega arith
rank_spawner worker r h = absurd (cc h)

rank_small : (r : Role) → rank r ≤ 41
rank_small executive = omega arith
rank_small head = omega arith
rank_small manager = omega arith
rank_small worker = omega arith

module _ ⦃sql : Sql⦄ where
  found_key : (db : Database) (id : AgentId) (c : Agent) → get_agent db id ≡ ok c → c.id ≡ id
  unfolding get_agent
  found_key db id c h = get_key agent_key id (sql.rows db.agents) c (ground (arith, h))

  depth_from-rank :
      (db : Database) (left depth k : ℕ) (a : Agent) (t : ReportTargetId)
      → a.reports_to ≡ t
      → IsOrderly (sql.rows db.agents)
      → Placed a
      → rank a.role ≤ left
      → depth_from db left depth a ≡ ok k
      → k ≡ depth + rank a.role
  unfolding depth_from
  depth_from-rank db zero depth k a t ht v p enough h = ground (arith, enough, h)
  depth_from-rank db (suc left) depth k a to_principal ht v p enough h =
      let top = rank_top a.role (subst (λ t. Under t a.role a.department) ht p.1) in
      ground (arith, h, ht, top)
  depth_from-rank db (suc left) depth k a (to_agent m) ht v p enough h =
      elim (Result-cases (get_agent db m)) [
        | inr (x, e) ↦ absurd (ground (arith, h, ht, e))
        | inl (b, e) ↦
            let pb = found_Placed db m b v e in
            let at = found_key db m b e in
            let step =
              rank-Under m b.role a.role b.department a.department
                (subst (λ i. Named i b.role b.department) at pb.0)
                (subst (λ t. Under t a.role a.department) ht p.1) in
            ground (
              arith,
              step,
              depth_from-rank db left (suc depth) k b b.reports_to refl v pb
                  (omega (arith, step, enough)),
              h,
              ht,
              e,
            )
      ]

  -- On an organization in order, a depth that `depthOf` returns for an agent on file is the distance of
  -- its role from the executive.
  depth_of-rank :
      (db : Database) (id : AgentId) (a : Agent) (k : ℕ)
      → IsOrderly (sql.rows db.agents)
      → get_agent db id ≡ ok a
      → depth_of db a ≡ ok k
      → k ≡ rank a.role
  unfolding depth_of
  depth_of-rank db id a k v found h = omega (
    arith,
    depth_from-rank db _ 0 k a a.reports_to refl v (found_Placed db id a v found)
        (rank_small a.role) h,
  )

  -- On an organization in order the depth limit never refuses a creation: the ladder ends before it.
  pub depth_limit_unreachable :
      (db : Database) (creator : AgentId) (dept : Option Department)
      → IsOrderly (sql.rows db.agents)
      → admit db creator dept ≢ refused depth_limit
  unfolding admit
  depth_limit_unreachable db creator dept v h = elim (Result-cases (get_agent db creator)) [
    | inr (x, e) ↦ ground (arith, e, h)
    | inl (c, e) ↦ elim (Option-cases (next_role c.role)) [
      | inl none_left ↦ ground (arith, e, none_left, h)
      | inr (r, rung) ↦ elim (Result-cases (depth_of db c)) [
        | inr (x, f) ↦ ground (arith, e, rung, f, h)
        | inl (k, f) ↦
            ground
              (arith, e, rung, f, h, depth_of-rank db creator c k v e f, rank_spawner c.role r rung)
      ]
    ]
  ]
