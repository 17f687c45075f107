-- ===== src/Tasks/Creation.antt =====
-- `create` of core/services/task.ts: a refused creation writes nothing, an accepted one adds exactly
-- one task and delegates it.
use xevos.Base.{
  ℕ, suc, ==_refl, ◌≡◌, ◌≤◌, refl, ap, sym, ◌∙◌, true, false, Option-cases, none, some, List, [],
  ◌∷◌, ◌++◌, All, any, inl, inr, arith, nat_eq, subst,
}
use xevos.Schema.Org.{AgentId, Agent, agent, service, tasks_service}
use xevos.Schema.Event.{EventInput, task_delegation_request}
use xevos.Schema.Task.{TaskId, Task, TaskCreate}
use xevos.Sql.{Sql}
use xevos.Sql.Rows.{by_key}
use xevos.Db.{Database, ok, Result-cases, task_counter, counter_key_eq}
use xevos.Db.Counters.{next_id_lem, counter_value}
use xevos.Tasks.Repository.{task_key, new_task, create_task}
use xevos.Agents.Repository.{get_agent}
use xevos.Bus.Store.{event_row}
use xevos.Bus.Core.{World, publish, envelope}
use xevos.Bus.Durable.{Inv}
use xevos.Bus.Publish.{publish_lem}
use xevos.Bus.Frame.{publish-tables, Inv-db}
use xevos.Tasks.Service.{Created, create, create_for}

module _ ⦃sql : Sql⦄ where
  -- Every task has an id that the counter has passed.
  abbrev pub Counted : Database → Type 0
  Counted db =
      All (λ t. t.id ≤ counter_value task_counter (sql.rows db.counters)) (sql.rows db.tasks)

  fresh_id :
      (n : ℕ) (ts : List Task) → All (λ t. t.id ≤ n) ts → any (by_key task_key (suc n)) ts ≡ false
  fresh_id n [] h = refl
  fresh_id n (t ∷ ts) h = ground (arith, fresh_id n ts h.1, h.0)

  raise :
      (n : ℕ) (t : Task) (ts : List Task)
      → t.id ≡ suc n
      → All (λ t. t.id ≤ n) ts
      → All (λ t. t.id ≤ suc n) (ts ++ (t ∷ []))
  raise n t [] e h = (omega (arith, e), tt)
  raise n t (u ∷ us) e h = (omega (arith, h.0), raise n t us e h.1)

  -- What `createTask` has done.
  pub record Stored (db : Database) (now : ℕ) (spec : TaskCreate) (n : TaskId) : Type 0 where
    pub db' : Database
    pub stored : create_task db now spec ≡ ok (new_task n now spec, db')
    pub rows : sql.rows db'.tasks ≡ sql.rows db.tasks ++ (new_task n now spec ∷ [])
    pub agents : db'.agents ≡ db.agents
    pub events : db'.events ≡ db.events
    pub inbox : db'.inbox ≡ db.inbox
    pub counted : Counted db'

  -- With ids within the counter, `createTask` adds the one row whose id is the counter's next value.
  pub create_task_lem :
      (db : Database) (now : ℕ) (spec : TaskCreate)
      → Counted db
      → Stored db now spec (suc (counter_value task_counter (sql.rows db.counters)))
  unfolding create_task
  create_task_lem db now spec h =
      let n = counter_value task_counter (sql.rows db.counters) in
      let (counters, allocated, moved) = next_id_lem task_counter db.counters in
      let t = new_task (suc n) now spec in
      let (tasks, inserted, rows) =
        sql.insert_fresh (by_key task_key (suc n)) t db.tasks (fresh_id n (sql.rows db.tasks) h) in
      record {
        db' = record db { tasks = tasks; counters = counters };
        stored = ground (arith, allocated, inserted);
        rows = rows;
        agents = refl;
        events = refl;
        inbox = refl;
        counted =
            rw (rows, moved task_counter, ==_refl task_counter)
              (raise n t (sql.rows db.tasks) refl h);
      }

  abbrev pub delegation : AgentId → TaskId → EventInput
  delegation a n = record {
    source = service tasks_service;
    target = agent a;
    correlation_id = none;
    body = task_delegation_request n;
  }

  -- What a creation for an existing assignee has done.
  pub record CreatedFor (w : World) (now : ℕ) (spec : TaskCreate) (a : AgentId) (n : TaskId)
      (out : Created × World) : Type 0 where
    pub accepted : out.0 ≡ record { task_id = some n; created = true; reason = none }
    pub rows : sql.rows out.1.db.tasks ≡ sql.rows w.db.tasks ++ (new_task n now spec ∷ [])
    pub delegated :
        sql.rows out.1.db.events
        ≡ sql.rows w.db.events
          ++ (event_row now (suc w.bus.seq) (envelope (suc w.bus.seq) (delegation a n)) ∷ [])
    pub agents : out.1.db.agents ≡ w.db.agents
    pub inv : Inv out.1
    pub counted : Counted out.1.db

  create-eq :
      (w : World) (now : ℕ) (spec : TaskCreate) (a : AgentId) (b : Agent) (n : TaskId)
      → (s : Stored w.db now spec n) → spec.assigned_to ≡ some a
      → get_agent w.db a ≡ ok b
      → (publish (record w { db = s.db' }) now (delegation a n)).1 ≡ ok (suc w.bus.seq)
      → create w now spec ≡ (
        record { task_id = some n; created = true; reason = none },
        (publish (record w { db = s.db' }) now (delegation a n)).0,
      )
  unfolding create create_for
  create-eq w now spec a b n s ha hb sent = ground (arith, s.stored)

  -- On a bus in order, with task ids within the counter, a creation for an existing assignee
  -- succeeds: one task is added, under the next id and assigned, and the log gains the delegation that
  -- wakes the assignee.
  pub create_lem :
      (w : World) (now : ℕ) (spec : TaskCreate) (a : AgentId) (b : Agent)
      → Inv w
      → Counted w.db
      → spec.assigned_to ≡ some a
      → get_agent w.db a ≡ ok b
      → CreatedFor w now spec a
          (suc (counter_value task_counter (sql.rows w.db.counters)))
          (create w now spec)
  create_lem w now spec a b v h ha hb =
      let n = suc (counter_value task_counter (sql.rows w.db.counters)) in
      let s = create_task_lem w.db now spec h in
      let w' : World = record w { db = s.db' } in
      let p = publish_lem w' now (delegation a n) (Inv-db w s.db' s.events s.inbox v) in
      let kept = publish-tables w' now (delegation a n) in
      subst (CreatedFor w now spec a n) (sym (create-eq w now spec a b n s ha hb p.returned))
        (record {
          accepted = refl;
          rows = ap sql.rows kept.0 ∙ s.rows;
          delegated =
              p.logged
              ∙ ap
                  (λ t.
                    sql.rows t
                    ++ (event_row now (suc w.bus.seq) (envelope (suc w.bus.seq) (delegation a n))
                        ∷ []))
                  s.events;
          agents = kept.1 ∙ s.agents;
          inv = p.inv;
          counted = rw (kept.0, kept.2) s.counted;
        })

  -- On a bus in order, with task ids within the counter, a creation that was refused changed nothing.
  pub create_refused :
      (w : World) (now : ℕ) (spec : TaskCreate)
      → Inv w
      → Counted w.db
      → (create w now spec).0.created ≡ false
      → (create w now spec).1 ≡ w
  unfolding create
  create_refused w now spec v h refused = elim (Option-cases spec.assigned_to) [
    | inl e ↦ ground (arith, e)
    | inr (a, e) ↦ elim (Result-cases (get_agent w.db a)) [
      | inl (b, f) ↦ absurd (cc (refused, (create_lem w now spec a b v h e f).accepted))
      | inr (x, f) ↦ ground (arith, e, f)
    ]
  ]
