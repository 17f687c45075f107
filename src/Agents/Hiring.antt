-- ===== src/Agents/Hiring.antt =====
-- `create` of core/services/agent.ts: what it refuses changes nothing, what it approves is a new agent
-- that its creator manages.
use xevos.Base.{
  ℕ, suc, ◌≡◌, ◌≤◌, ap, refl, ◌∙◌, subst, true, false, Option, none, some, Option-cases, Bool-cases,
  List, map, [], ◌∷◌, ◌++◌, length, leb, arith, inl, inr, ◌==◌, if◌then◌else◌,
}
use xevos.Schema.Org.{
  Role, executive, head, manager, worker, Department, AgentId, agent_id_eq, Agent, AgentCreate,
  agent,
}
use xevos.Schema.Event.{
  Reason, unknown_creator, leaf_role, org_size_limit, direct_reports_limit, depth_limit,
  department_required,
}
use xevos.Agents.Roles.{next_role}
use xevos.Sql.{Sql}
use xevos.Sql.Rows.{by_key}
use xevos.Db.{Database, ok, err, Result-cases}
use xevos.Agents.Repository.{
  agent_key, get_agent, AgentPatch, apply_agent_patch, new_agent, create_agent, update_agent,
}
use xevos.Agents.Service.{
  max_depth, max_total_agents, max_direct_reports, department_for, depth_of, admit_at, admit_as,
  refused, Verdict-cases, admit, Org, Spawned, hire, create, with_db,
}
use xevos.Agents.Ladder.{Admitted, admit_lem}
use xevos.Agents.Orderly.{create_agent-rows}
use xevos.Agents.Policy.{launch-db}

module _ ⦃sql : Sql⦄ where
  leaf_is_worker : (r : Role) → next_role r ≡ none → r ≡ worker
  leaf_is_worker worker h = refl
  leaf_is_worker manager h = absurd (cc h)
  leaf_is_worker head h = absurd (cc h)
  leaf_is_worker executive h = absurd (cc h)

  no_department :
      (r : Role) (own : Department) (dept : Option Department)
      → department_for r own dept ≡ none
      → (r ≡ executive) × (dept ≡ none)
  no_department executive own dept h = (refl, h)
  no_department head own dept h = absurd (cc h)
  no_department manager own dept h = absurd (cc h)
  no_department worker own dept h = absurd (cc h)

  -- The reason of a refusal is true of the organization.
  abbrev pub Explains : Database → AgentId → Option Department → Reason → Type 0
  Explains db creator dept (unknown_creator e) =
      (e ≡ agent creator) × ((x : Reason) × (get_agent db creator ≡ err x))
  Explains db creator dept (leaf_role r) =
      (c : Agent) × (get_agent db creator ≡ ok c) × (r ≡ c.role) × (c.role ≡ worker)
  Explains db creator dept org_size_limit = 40 ≤ length (sql.rows db.agents)
  Explains db creator dept (direct_reports_limit id) =
      (c : Agent) × (get_agent db creator ≡ ok c) × (id ≡ c.id) × (8 ≤ length c.manages)
  Explains db creator dept depth_limit =
      (c : Agent) × (get_agent db creator ≡ ok c) × ((k : ℕ) × (depth_of db c ≡ ok k) × (3 ≤ k))
  Explains db creator dept department_required =
      (c : Agent) × (get_agent db creator ≡ ok c) × (c.role ≡ executive) × (dept ≡ none)
  Explains db creator dept _ = ⊥

  refused_at-Explains :
      (db : Database) (creator : AgentId) (c : Agent) (q : Role) (dept : Option Department)
      (r : Reason)
      → get_agent db creator ≡ ok c
      → admit_at db c q dept (depth_of db c) ≡ refused r
      → Explains db creator dept r
  refused_at-Explains db creator c q dept r e h = elim (Result-cases (depth_of db c)) [
    | inr (x, f) ↦ absurd (ground (arith, f, h))
    | inl (k, f) ↦ elim (Bool-cases (leb (suc k) max_depth)) [
      | inr deep ↦
          subst (Explains db creator dept) {x = depth_limit} (ground (arith, f, deep, h))
            (c, e, (k, f, ground (arith, deep)))
      | inl fits ↦ elim (Option-cases (department_for c.role c.department dept)) [
        | inl g ↦
            let why = no_department c.role c.department dept g in
            subst (Explains db creator dept) {x = department_required}
              (ground (arith, f, fits, g, h)) (c, e, why.0, why.1)
        | inr (d, g) ↦ absurd (ground (arith, f, fits, g, h))
      ]
    ]
  ]

  refused_as-Explains :
      (db : Database) (creator : AgentId) (c : Agent) (dept : Option Department) (r : Reason)
      → get_agent db creator ≡ ok c
      → admit_as db c (next_role c.role) dept ≡ refused r
      → Explains db creator dept r
  refused_as-Explains db creator c dept r e h = elim (Option-cases (next_role c.role)) [
    | inl leaf ↦
        subst (Explains db creator dept) {x = leaf_role c.role} (ground (arith, leaf, h))
          (c, e, refl, leaf_is_worker c.role leaf)
    | inr (q, rung) ↦ elim (Bool-cases (leb max_total_agents (length (sql.rows db.agents)))) [
      | inl full ↦
          subst (Explains db creator dept) {x = org_size_limit} (ground (arith, rung, full, h))
            (ground (arith, full))
      | inr room ↦ elim (Bool-cases (leb max_direct_reports (length c.manages))) [
        | inl wide ↦
            subst (Explains db creator dept) {x = direct_reports_limit c.id}
              (ground (arith, rung, room, wide, h)) (c, e, refl, ground (arith, wide))
        | inr span ↦
            refused_at-Explains db creator c q dept r e (ground (arith, rung, room, span, h))
      ]
    ]
  ]

  admit-Explains :
      (db : Database) (creator : AgentId) (dept : Option Department) (r : Reason)
      → admit db creator dept ≡ refused r
      → Explains db creator dept r
  unfolding admit
  admit-Explains db creator dept r h = elim (Result-cases (get_agent db creator)) [
    | inr (x, e) ↦
        subst (Explains db creator dept) {x = unknown_creator (agent creator)}
          (ground (arith, e, h)) (refl, (x, e))
    | inl (c, e) ↦ refused_as-Explains db creator c dept r e (ground (arith, e, h))
  ]

  -- An agent creation that was not approved changed nothing and names no agent, and the reason that it
  -- gives is true: the creator is not on file, or it is a worker, or there are 40 agents or more, or it
  -- has 8 direct reports on record or more, or it is 3 or more steps below the top, or it is the
  -- executive and no department was given.
  pub spawn_refused :
      (o : Org) (now : ℕ) (creator : AgentId) (dept : Option Department) (s : Spawned)
      → (create o now creator dept).0 ≡ ok s
      → s.approved ≡ false
      → ((create o now creator dept).1 ≡ o)
        × (s.agent_id ≡ none)
        × ((r : Reason) × (s.reason ≡ some r) × Explains o.world.db creator dept r)
  unfolding create hire
  spawn_refused o now creator dept s h denied =
      elim (Verdict-cases (admit o.world.db creator dept)) [
        | inr (inl (r, e)) ↦ (
          ground (arith, e),
          ground (arith, e, h),
          (r, ground (arith, e, h), admit-Explains o.world.db creator dept r e),
        )
        | inr (inr (r, e)) ↦ absurd (ground (arith, e, h))
        | inl (c, spec, e) ↦ absurd (ground (arith, e, h, denied))
      ]

  -- What an approved creation has done: the guards hold of the creator, the table has gained the one
  -- new agent, which the answer names, and the creator's row manages it.
  pub record Hired (o : Org) (now : ℕ) (creator : AgentId) (dept : Option Department) (s : Spawned)
      (o' : Org) : Type 0 where
    pub c : Agent
    pub spec : AgentCreate
    pub n : ℕ
    pub checked : Admitted o.world.db creator dept c spec
    pub answer : s.agent_id ≡ some (new_agent spec n now).id
    pub rows :
        sql.rows o'.world.db.agents
        ≡ map
            (λ r.
              if r.id == c.id
              then record r { manages = c.manages ++ ((new_agent spec n now).id ∷ []) }
              else r)
            (sql.rows o.world.db.agents ++ (new_agent spec n now ∷ []))

  manage-rows :
      (db : Database) (id a : AgentId) (ms : List AgentId)
      → sql.rows
          (update_agent db id (record { manages = some (ms ++ (a ∷ [])); status = none })).1.agents
        ≡ map
            (λ r. if r.id == id then record r { manages = ms ++ (a ∷ []) } else r)
            (sql.rows db.agents)
  unfolding update_agent
  manage-rows db id a ms =
      sql.rows-update (by_key agent_key id)
        (apply_agent_patch (record { manages = some (ms ++ (a ∷ [])); status = none })) db.agents

  hire-Hired :
      (o : Org) (now : ℕ) (creator : AgentId) (dept : Option Department) (c : Agent)
      (spec : AgentCreate) (s : Spawned)
      → Admitted o.world.db creator dept c spec
      → (hire o now c spec).0 ≡ ok s
      → Hired o now creator dept s (hire o now c spec).1
  unfolding hire
  hire-Hired o now creator dept c spec s adm h =
      elim (Result-cases (create_agent o.world.db now spec)) [
        | inr (x, e) ↦ absurd (ground (arith, e, h))
        | inl ((a, db), e) ↦
            let (n, is, grown) = create_agent-rows o.world.db now spec a db e in
            let p : AgentPatch = record {
              manages = some (c.manages ++ (a.id ∷ []));
              status = none;
            } in
            let o' = with_db o (update_agent db c.id p).1 in
            elim (Result-cases (update_agent db c.id p).0) [
              | inr (x, f) ↦ absurd (ground (arith, e, f, h))
              | inl (b, f) ↦
                  rw (e, f, hire)
                    (record {
                      c = c;
                      spec = spec;
                      n = n;
                      checked = adm;
                      answer = ground (arith, e, f, h, is);
                      rows =
                          ap (λ d. sql.rows d.agents) (launch-db o' a)
                          ∙ (manage-rows db c.id a.id c.manages ∙ rw (grown, is) refl);
                    })
            ]
      ]

  -- An approved creation passed every guard, the limit on the depth included, added one agent, put it
  -- among those its creator manages, and names it in its answer.
  pub spawn_approved :
      (o : Org) (now : ℕ) (creator : AgentId) (dept : Option Department) (s : Spawned)
      → (create o now creator dept).0 ≡ ok s
      → s.approved ≡ true
      → Hired o now creator dept s (create o now creator dept).1
  unfolding create
  spawn_approved o now creator dept s h granted =
      elim (Verdict-cases (admit o.world.db creator dept)) [
        | inr (inl (r, e)) ↦ absurd (ground (arith, e, h, granted))
        | inr (inr (r, e)) ↦ absurd (ground (arith, e, h, granted))
        | inl (c, spec, e) ↦
            rw (e, create)
              (hire-Hired o now creator dept c spec s (admit_lem o.world.db creator dept c spec e)
                (ground (arith, e, h)))
      ]
