-- ===== src/Agents/Policy.antt =====
-- The organization stays a bounded tree whatever requests core/services/agent.ts handles.
use xevos.Base.{
  ℕ, ◌≤◌, refl, ap, sym, subst, ◌≡◌, Option, none, some, List, [], ◌∷◌, ◌++◌, length, All-append,
  All-find, length-append, arith, inl, inr,
}
use xevos.Schema.Org.{
  Department, AgentId, agent_id_eq, Agent, AgentCreate, EndpointId, agent, service, principal,
  active, suspended,
}
use xevos.Schema.Event.{
  Event, Body, agent_creation_request, agent_suspension_request, agent_resume_request,
  agent_termination_request,
}
use xevos.Sql.{Sql}
use xevos.Sql.Rows.{by_key}
use xevos.Db.{Database, ok, Result-cases}
use xevos.Agents.Repository.{
  agent_key, AgentPatch, new_agent, get_agent, create_agent, update_agent, delete_agent,
}
use xevos.Bus.Frame.{publish-tables}
use xevos.Agents.Service.{
  max_direct_reports, Verdict-cases, admit, Org, hire, create, create_from, launch, halt, respond,
  with_db, handle_creation, handle_suspension, handle_resume, handle_termination, dispatch, serve,
  status_change,
}
use xevos.Agents.Ladder.{Under, Placed, subordinate-Under, Admitted, admit_lem}
use xevos.Agents.Orderly.{IsOrderly, create_agent-rows, update-IsOrderly, delete-IsOrderly}

module _ ⦃sql : Sql⦄ where
  -- The agents of an organization are in order.
  abbrev pub Orderly : Org → Type 0
  Orderly o = IsOrderly (sql.rows o.world.db.agents)

  pub found_Placed :
      (db : Database) (id : AgentId) (c : Agent)
      → IsOrderly (sql.rows db.agents)
      → get_agent db id ≡ ok c
      → Placed c
  unfolding get_agent
  found_Placed db id c v h =
      All-find Placed (by_key agent_key id) (sql.rows db.agents) c v.placed (ground (arith, h))

  hired_rows :
      (db : Database) (creator : AgentId) (dept : Option Department) (c : Agent)
      (spec : AgentCreate) (n now : ℕ)
      → IsOrderly (sql.rows db.agents)
      → Admitted db creator dept c spec
      → IsOrderly (sql.rows db.agents ++ (new_agent spec n now ∷ []))
  hired_rows db creator dept c spec n now v a =
      let at = found_Placed db creator c v a.found in
      let above =
        subordinate-Under c.id c.role spec.role c.department spec.department dept at.0 a.rung
          a.department in
      record {
        size =
            omega (arith, a.room, length-append (sql.rows db.agents) (new_agent spec n now ∷ []));
        placed = All-append Placed (sql.rows db.agents) _ v.placed (
          (
            (refl, refl),
            subst (λ t. Under t spec.role spec.department) (sym (ap (λ s. s.reports_to) a.spec_is))
                above,
          ),
          tt,
        );
        span =
            All-append (λ b. length b.manages ≤ max_direct_reports) (sql.rows db.agents) _ v.span
              (omega arith, tt);
      }

  pub launch-db : (o : Org) (a : Agent) → (launch o a).world.db ≡ o.world.db
  unfolding launch
  launch-db o a = ground arith

  hire-Orderly :
      (o : Org) (now : ℕ) (creator : AgentId) (dept : Option Department) (c : Agent)
      (spec : AgentCreate)
      → Orderly o
      → Admitted o.world.db creator dept c spec
      → Orderly (hire o now c spec).1
  unfolding hire
  hire-Orderly o now creator dept c spec v adm =
      elim (Result-cases (create_agent o.world.db now spec)) [
        | inr (x, e) ↦ rw (e, hire) v
        | inl ((a, db), e) ↦
            let (n, is, rows) = create_agent-rows o.world.db now spec a db e in
            let p : AgentPatch = record {
              manages = some (c.manages ++ (a.id ∷ []));
              status = none;
            } in
            let short : length (c.manages ++ (a.id ∷ [])) ≤ max_direct_reports =
              omega (arith, adm.span, length-append c.manages (a.id ∷ [])) in
            let grown : IsOrderly (sql.rows db.agents) =
              rw (rows, is) (hired_rows o.world.db creator dept c spec n now v adm) in
            let v' = update-IsOrderly db c.id p short grown in
            elim (Result-cases (update_agent db c.id p).0) [
              | inr (x, f) ↦ rw (e, f, hire) v'
              | inl (b, f) ↦
                  rw (e, f, hire)
                    (subst (λ d. IsOrderly (sql.rows d.agents))
                      (sym (launch-db (with_db o (update_agent db c.id p).1) a)) v')
            ]
      ]

  -- A creation, granted, refused or failed, keeps the organization in order.
  pub create-Orderly :
      (o : Org) (now : ℕ) (creator : AgentId) (dept : Option Department)
      → Orderly o
      → Orderly (create o now creator dept).1
  unfolding create
  create-Orderly o now creator dept v = elim (Verdict-cases (admit o.world.db creator dept)) [
    | inl (c, spec, e) ↦
        rw (e, create)
          (hire-Orderly o now creator dept c spec v (admit_lem o.world.db creator dept c spec e))
    | inr (inl (r, e)) ↦ rw (e, create) v
    | inr (inr (r, e)) ↦ rw (e, create) v
  ]

  create_from-Orderly :
      (o : Org) (now : ℕ) (source : EndpointId) (dept : Option Department)
      → Orderly o
      → Orderly (create_from o now source dept).1
  create_from-Orderly o now (agent a) dept v = create-Orderly o now a dept v
  create_from-Orderly o now (service s) dept v = v
  create_from-Orderly o now principal dept v = v

  respond-Orderly :
      (o : Org) (now : ℕ) (e : Event) (b : Body) → Orderly o → Orderly (respond o now e b)
  unfolding respond
  respond-Orderly o now e b v =
      subst (λ t. IsOrderly (sql.rows t)) (sym (publish-tables o.world now _).1) v

  halt-db : (o : Org) (id : AgentId) → (halt o id).world.db ≡ o.world.db
  unfolding halt
  halt-db o id = ground arith

  creation-Orderly :
      (o : Org) (now : ℕ) (e : Event) (spec : AgentCreate)
      → Orderly o
      → Orderly (handle_creation o now e spec)
  unfolding handle_creation
  creation-Orderly o now e spec v =
      let after = create_from-Orderly o now e.source (some spec.department) v in
      elim (Result-cases (create_from o now e.source (some spec.department)).0) [
        | inr (x, h) ↦ rw (h, handle_creation) after
        | inl (s, h) ↦ rw (h, handle_creation) (respond-Orderly _ now e _ after)
      ]

  suspension-Orderly :
      (o : Org) (now : ℕ) (e : Event) (id : AgentId)
      → Orderly o
      → Orderly (handle_suspension o now e id)
  unfolding handle_suspension
  suspension-Orderly o now e id v =
      let after = update-IsOrderly o.world.db id (status_change suspended) (omega arith) v in
      elim (Result-cases (update_agent o.world.db id (status_change suspended)).0) [
        | inr (x, h) ↦ rw (h, handle_suspension) after
        | inl (s, h) ↦ rw (h, handle_suspension) (respond-Orderly _ now e _ after)
      ]

  resume-Orderly :
      (o : Org) (now : ℕ) (e : Event) (id : AgentId)
      → Orderly o
      → Orderly (handle_resume o now e id)
  unfolding handle_resume
  resume-Orderly o now e id v =
      let p = status_change active in
      let after = update-IsOrderly o.world.db id p (omega arith) v in
      let db = (update_agent o.world.db id p).1 in
      elim (Result-cases (update_agent o.world.db id p).0) [
        | inr (x, h) ↦ rw (h, handle_resume) after
        | inl (a, h) ↦
            rw (h, handle_resume)
              (respond-Orderly (launch (with_db o db) a) now e _ (
                subst (λ d. IsOrderly (sql.rows d.agents)) (sym (launch-db (with_db o db) a))
                  after))
      ]

  termination-Orderly :
      (o : Org) (now : ℕ) (e : Event) (id : AgentId)
      → Orderly o
      → Orderly (handle_termination o now e id)
  unfolding handle_termination
  termination-Orderly o now e id v =
      let o' = halt o id in
      let v' : Orderly o' = subst (λ d. IsOrderly (sql.rows d.agents)) (sym (halt-db o id)) v in
      let after = delete-IsOrderly o'.world.db id v' in
      elim (Result-cases (delete_agent o'.world.db id).0) [
        | inr (x, h) ↦ rw (h, handle_termination) after
        | inl (a, h) ↦ rw (h, handle_termination) (respond-Orderly _ now e _ after)
      ]

  pub dispatch-Orderly :
      (o : Org) (now : ℕ) (e : Event) (b : Body) → Orderly o → Orderly (dispatch o now e b)
  unfolding dispatch
  dispatch-Orderly o now e (agent_creation_request spec) v = creation-Orderly o now e spec v
  dispatch-Orderly o now e (agent_suspension_request id _) v = suspension-Orderly o now e id v
  dispatch-Orderly o now e (agent_resume_request id) v = resume-Orderly o now e id v
  dispatch-Orderly o now e (agent_termination_request id _) v = termination-Orderly o now e id v
  dispatch-Orderly o now e b v = v

  -- From an organization in order, whatever requests are served, at most 40 agents exist, none has
  -- more than 8 direct reports on record, each stands one rung under the agent it reports to, and in
  -- its department unless that is the executive.
  pub serve-Orderly : (o : Org) (es : List (ℕ × Event)) → Orderly o → Orderly (serve o es)
  unfolding serve
  serve-Orderly o [] v = v
  serve-Orderly o ((now, e) ∷ es) v =
      serve-Orderly (dispatch o now e e.body) es (dispatch-Orderly o now e e.body v)
