-- ===== src/Tasks/Lifecycle.antt =====
-- Whole runs of the task service: what becomes of one task while requests are handled.
use xevos.Base.{
  Text, nat_eq, ℕ, ◌≡◌, refl, ap, ◌∙◌, Bool, true, false, Option, Option-cases, none, some, List,
  [], ◌∷◌, All, any, inl, inr, Bool-cases, arith,
}
use xevos.Schema.Org.{EndpointId, agent}
use xevos.Schema.Event.{
  task_delegation_request, Event, EventId, Body, task_create_request, task_update_request,
  task_transition_request, task_transition_response, task_create_response,
}
use xevos.Schema.Task.{TaskId, Task, TaskStatus, TaskCreate, TaskPatch}
use xevos.Sql.{Sql}
use xevos.Sql.Rows.{by_key, get, get-append_kept}
use xevos.Db.{Database, ok, Result-cases, task_counter}
use xevos.Db.Counters.{next_id}
use xevos.Tasks.Repository.{task_key, new_task, get_task, create_task, update_task, apply_patch}
use xevos.Memory.Service.{Models}
use xevos.Memory.Frame.{Kept, kept_refl}
use xevos.Agents.Repository.{get_agent}
use xevos.Bus.Core.{World}
use xevos.Bus.Frame.{publish-tables}
use xevos.Tasks.Service.{
  is_terminal, may_move, create, create_for, transition, respond, dispatch, handle, handle_create,
  handle_transition, handle_update, update_reply, archive_updated,
}
use xevos.Tasks.Transitions.{
  patched, get-update_task, get_task-Kept, archive_closed-Kept, transition-Accepted,
  transition_refused,
}

abbrev pub is_update : Body → Bool
is_update (task_update_request _ _) = true
is_update _ = false

closed_moves_nowhere : (s to : TaskStatus) → is_terminal s ≡ true → may_move s to ≡ false
closed_moves_nowhere TaskStatus.completed to h = refl
closed_moves_nowhere TaskStatus.failed to h = refl
closed_moves_nowhere TaskStatus.cancelled to h = refl
closed_moves_nowhere TaskStatus.backlog to h = absurd (cc h)
closed_moves_nowhere TaskStatus.assigned to h = absurd (cc h)
closed_moves_nowhere TaskStatus.in_progress to h = absurd (cc h)
closed_moves_nowhere TaskStatus.blocked to h = absurd (cc h)
closed_moves_nowhere TaskStatus.in_review to h = absurd (cc h)

module _ ⦃sql : Sql⦄ where
  get_task-publish :
      (w : World) (now : ℕ) (to : EndpointId) (c : Option EventId) (b : Body) (j : TaskId)
      → get_task (respond w now to c b).0.db j ≡ get_task w.db j
  unfolding get_task
  get_task-publish w now to c b j = ap (λ t. get task_key j (sql.rows t)) (publish-tables w now _).0

  -- A stored task stays when another is inserted.
  create_task-keeps :
      (db : Database) (now : ℕ) (spec : TaskCreate) (j : TaskId) (t t' : Task) (db' : Database)
      → get_task db j ≡ some t
      → create_task db now spec ≡ ok (t', db')
      → get_task db' j ≡ some t
  unfolding create_task get_task
  create_task-keeps db now spec j t t' db' found h =
      elim (Option-cases (next_id task_counter db.counters)) [
        | inl e ↦ absurd (ground (arith, e))
        | inr ((n, counters), e) ↦ elim (Bool-cases (any (by_key task_key n) (sql.rows db.tasks))) [
          | inl taken ↦ absurd (
              ground (
                arith,
                e,
                sql.insert_clash (by_key task_key n) (new_task n now spec) db.tasks taken,
              ))
          | inr free ↦
              let (tasks, inserted, rows) =
                sql.insert_fresh (by_key task_key n) (new_task n now spec) db.tasks free in
              let same : db' ≡ record db { tasks = tasks; counters = counters } =
                ground (arith, e, inserted) in
              rw (same, rows)
                (get-append_kept task_key j (sql.rows db.tasks) (new_task n now spec ∷ []) t found)
        ]
      ]

  pub create-keeps :
      (w : World) (now : ℕ) (spec : TaskCreate) (j : TaskId) (t : Task)
      → get_task w.db j ≡ some t
      → get_task (create w now spec).1.db j ≡ some t
  unfolding create create_for
  create-keeps w now spec j t found = elim (Option-cases spec.assigned_to) [
    | inl e ↦ ground (arith, e, found)
    | inr (a, e) ↦ elim (Result-cases (get_agent w.db a)) [
      | inr (x, f) ↦ ground (arith, e, f, found)
      | inl (b, f) ↦ elim (Result-cases (create_task w.db now spec)) [
        | inr (x, g) ↦ ground (arith, e, f, g, found)
        | inl ((t', db), g) ↦ ground (
          arith,
          e,
          f,
          g,
          get_task-publish (record w { db = db }) now (agent a) none (task_delegation_request t'.id)
              j,
          create_task-keeps w.db now spec j t t' db found g,
        )
      ]
    ]
  ]

  module _ (models : Models) where
    pub transition-keeps :
        (db : Database) (now : ℕ) (source : EndpointId) (id : TaskId) (to : TaskStatus)
        (why : Option Text) (j : TaskId) (t : Task)
        → get_task db j ≡ some t
        → is_terminal t.status ≡ true
        → get_task (transition models db now source id to why).1 j ≡ some t
    transition-keeps db now source id to why j t found closed =
        elim (Bool-cases (transition models db now source id to why).0.transitioned) [
          | inr h ↦ rw ((transition_refused models db now source id to why h).0) found
          | inl h ↦
              let a = transition-Accepted models db now source id to why h in
              let stays = closed_moves_nowhere t.status to closed in
              a.written j ∙ ground (arith, found, a.found, a.legal, stays)
        ]

    handle_create-keeps :
        (w : World) (now : ℕ) (e : Event) (spec : TaskCreate) (j : TaskId) (t : Task)
        → get_task w.db j ≡ some t
        → get_task (handle_create models w now e spec).db j ≡ some t
    unfolding handle_create
    handle_create-keeps w now e spec j t found =
        let (c, w') = create w now spec in
        get_task-publish w' now e.source (some e.id)
          (task_create_response c.task_id c.created c.reason) j
        ∙ create-keeps w now spec j t found

    handle_transition-keeps :
        (w : World) (now : ℕ) (e : Event) (id : TaskId) (to : TaskStatus) (why : Option Text)
        (j : TaskId) (t : Task)
        → get_task w.db j ≡ some t
        → is_terminal t.status ≡ true
        → get_task (handle_transition models w now e id to why).db j ≡ some t
    unfolding handle_transition
    handle_transition-keeps w now e id to why j t found closed =
        let (m, db) = transition models w.db now e.source id to why in
        get_task-publish (record w { db = db }) now e.source (some e.id)
          (task_transition_response m.transitioned m.reason) j
        ∙ transition-keeps w.db now e.source id to why j t found closed

    pub dispatch-keeps :
        (w : World) (now : ℕ) (e : Event) (b : Body) (j : TaskId) (t : Task)
        → get_task w.db j ≡ some t
        → is_terminal t.status ≡ true
        → is_update b ≡ false
        → get_task (dispatch models w now e b).db j ≡ some t
    unfolding dispatch
    dispatch-keeps w now e (task_create_request spec) j t found closed other =
        handle_create-keeps w now e spec j t found
    dispatch-keeps w now e (task_transition_request id to why) j t found closed other =
        handle_transition-keeps w now e id to why j t found closed
    dispatch-keeps w now e (task_update_request id patch) j t found closed other = absurd (cc other)
    dispatch-keeps w now e b j t found closed other = ground (arith, found)

    -- The service's loop over the events of its mailbox, each with the time at which it is handled.
    unfoldable pub serve : World → List (ℕ × Event) → World
    serve w [] = w
    serve w ((now, e) ∷ es) = serve (handle models w now e) es

    -- Whatever else is asked of the service, a closed task keeps every field, as long as no update
    -- request is among what it handles.
    pub closed_is_final :
        (w : World) (es : List (ℕ × Event)) (j : TaskId) (t : Task)
        → get_task w.db j ≡ some t
        → is_terminal t.status ≡ true
        → All (λ x. is_update x.1.body ≡ false) es
        → get_task (serve w es).db j ≡ some t
    unfolding serve handle
    closed_is_final w [] j t found closed other = found
    closed_is_final w ((now, e) ∷ es) j t found closed other =
        closed_is_final (handle models w now e) es j t
          (dispatch-keeps w now e e.body j t found closed other.0) closed other.1

    pub archive_updated-Kept :
        (db : Database) (now : ℕ) (o : Option Task) → Kept db (archive_updated models db now o)
    archive_updated-Kept db now none = kept_refl db
    archive_updated-Kept db now (some t) = archive_closed-Kept models db now (some t) t.status none

    -- An update request writes its patch to the row of its task, whoever sent it and whatever the
    -- status before and after: neither the transition policy nor the manager's authority is consulted.
    pub update_bypasses_policy :
        (w : World) (now : ℕ) (e : Event) (id : TaskId) (patch : TaskPatch) (j : TaskId)
        → get_task (dispatch models w now e (task_update_request id patch)).db j
          ≡ patched id (apply_patch patch now) j (get_task w.db j)
    unfolding dispatch handle_update
    update_bypasses_policy w now e id patch j =
        let (updated, db) = update_task w.db now id patch in
        let (w', sent) =
          respond (record w { db = db }) now e.source none (update_reply models id updated) in
        let before =
          get_task-publish (record w { db = db }) now e.source none (update_reply models id updated)
            j
          ∙ get-update_task w.db now id patch j in
        elim (Result-cases sent) [
          | inr (x, h) ↦ rw (h, handle_update) before
          | inl (n, h) ↦
              rw (h, handle_update)
                (get_task-Kept w'.db (archive_updated models w'.db now updated)
                    (archive_updated-Kept w'.db now updated) j
                  ∙ before)
        ]
