-- ===== src/Tasks/Service.antt =====
-- core/services/task.ts: the transition policy, and the service that creates, moves, patches and
-- archives tasks. An error that the run loop logs ends a handler early.
use xevos.Base.{
  ℕ, Bool, true, false, not, ◌&&◌, Option, none, some, List, [], ◌∷◌, any, ◌==◌, Text,
  if◌then◌else◌,
}
use xevos.Schema.Org.{EndpointId, endpoint_eq, agent, service, tasks_service, endpoint_of}
use xevos.Schema.Task.{
  TaskId, TaskStatus, task_status_eq, Task, TaskCreate, TaskPatch, ClosedReason, backlog, assigned,
  in_progress, blocked, in_review,
}
use xevos.Schema.Event.{
  EventId, Event, Body, Reason, task_not_found, illegal_transition, only_manager_completes,
  requires_assignee, note_text, task_delegation_request, task_create_request, task_create_response,
  task_update_request, task_update_response, task_transition_request, task_transition_response,
}
use xevos.Sql.{Sql}
use xevos.Db.{Database, Result, ok, err}
use xevos.Bus.Core.{World, publish}
use xevos.Tasks.Repository.{empty_patch, get_task, create_task, update_task}
use xevos.Agents.Repository.{get_agent}
use xevos.Memory.Service.{Models, close_task}

-- `VALID_TRANSITIONS`
abbrev pub valid_transitions : TaskStatus → List TaskStatus
valid_transitions backlog = assigned ∷ TaskStatus.cancelled ∷ []
valid_transitions assigned = in_progress ∷ blocked ∷ TaskStatus.cancelled ∷ []
valid_transitions in_progress =
    blocked ∷ in_review ∷ TaskStatus.completed ∷ TaskStatus.failed ∷ TaskStatus.cancelled ∷ []
valid_transitions blocked = in_progress ∷ TaskStatus.cancelled ∷ TaskStatus.failed ∷ []
valid_transitions in_review =
    in_progress ∷ TaskStatus.completed ∷ TaskStatus.failed ∷ TaskStatus.cancelled ∷ []
valid_transitions _ = []

abbrev pub may_move : TaskStatus → TaskStatus → Bool
may_move from to = any (λ s. s == to) (valid_transitions from)

-- `TERMINAL`, with the cast to a `ClosedReason`
abbrev pub closed_as : TaskStatus → Option ClosedReason
closed_as TaskStatus.completed = some ClosedReason.completed
closed_as TaskStatus.failed = some ClosedReason.failed
closed_as TaskStatus.cancelled = some ClosedReason.cancelled
closed_as _ = none

abbrev pub is_terminal : TaskStatus → Bool
is_terminal s = elim (closed_as s) [ none ↦ false | some _ ↦ true ]

pub record Created : Type 0 where
  pub task_id : Option TaskId
  pub created : Bool
  pub reason : Option Reason

abbrev pub not_created : Reason → Created
not_created r = record { task_id = none; created = false; reason = some r }

pub record Moved : Type 0 where
  pub transitioned : Bool
  pub reason : Option Reason

abbrev pub not_moved : Reason → Moved
not_moved r = record { transitioned = false; reason = some r }

abbrev pub noted : Option Text → Option Reason
noted none = none
noted (some t) = some (note_text t)

abbrev pub status_patch : TaskStatus → TaskPatch
status_patch to = record empty_patch { status = some to }

module _ ⦃sql : Sql⦄ where
  -- `this.publish`: the event leaves in the service's name.
  abbrev pub respond : World → ℕ → EndpointId → Option EventId → Body → World × Result EventId
  respond w now target correlation body = publish w now (record {
    source = service tasks_service;
    target = target;
    correlation_id = correlation;
    body = body;
  })

  -- The creation proper and the delegation, which share one `try`.
  unfoldable pub create_for : World → ℕ → EndpointId → TaskCreate → Created × World
  create_for w now target spec = elim (create_task w.db now spec) [
    | err r ↦ (not_created r, w)
    | ok (t, db) ↦
        let (w', sent) =
          respond (record w { db = db }) now target none (task_delegation_request t.id) in
        elim sent [
          | err r ↦ (not_created r, w')
          | ok _ ↦ (record { task_id = some t.id; created = true; reason = none }, w')
        ]
  ]

  -- `create`
  unfoldable pub create : World → ℕ → TaskCreate → Created × World
  create w now spec = elim spec.assigned_to [
    | none ↦ (not_created requires_assignee, w)
    | some a ↦ elim (get_agent w.db a) [
      | err r ↦ (not_created r, w)
      | ok _ ↦ create_for w now (agent a) spec
    ]
  ]

  -- The manager of the task's assignee: `none` without an assignee, or when it is not found.
  unfoldable pub manager_of : Database → Task → Option EndpointId
  manager_of db t = elim t.assigned_to [
    | none ↦ none
    | some a ↦ elim (get_agent db a) [ err _ ↦ none | ok b ↦ some (endpoint_of b.reports_to) ]
  ]

  abbrev pub is_manager : EndpointId → Option EndpointId → Bool
  is_manager source none = false
  is_manager source (some m) = source == m

  -- The guards of `transition`: the reason of a refusal.
  unfoldable pub refusal : Database → EndpointId → TaskStatus → Task → Option Reason
  refusal db source to t =
      if not (may_move t.status to)
      then some (illegal_transition t.status to)
      else if to == TaskStatus.completed && not (is_manager source (manager_of db t))
      then some only_manager_completes
      else none

  module _ (models : Models) where
    -- `archive`: a failure is logged.
    unfoldable pub archive : Database → ℕ → Task → ClosedReason → Option Text → Database
    archive db now t reason summary = elim t.assigned_to [
      | none ↦ db
      | some a ↦ elim (get_agent db a) [
        | err _ ↦ db
        | ok b ↦ (close_task models db now b.id t.id reason summary).1
      ]
    ]

    -- `if (updated && TERMINAL.includes(status)) await this.archive(updated, …)`
    unfoldable pub archive_closed : Database → ℕ → Option Task → TaskStatus → Option Text → Database
    archive_closed db now none to why = db
    archive_closed db now (some t) to why = elim (closed_as to) [
      | none ↦ db
      | some reason ↦ archive db now t reason why
    ]

    -- The write of `transition`, after the guards.
    unfoldable pub move : Database → ℕ → TaskId → TaskStatus → Option Text → Database
    move db now id to note =
        let (updated, db') = update_task db now id (status_patch to) in
        archive_closed db' now updated to note

    -- `transition`
    unfoldable pub transition :
        Database → ℕ → EndpointId → TaskId → TaskStatus → Option Text → Moved × Database
    transition db now source id to note = elim (get_task db id) [
      | none ↦ (not_moved (task_not_found id), db)
      | some t ↦ elim (refusal db source to t) [
        | some r ↦ (not_moved r, db)
        | none ↦ (record { transitioned = true; reason = noted note }, move db now id to note)
      ]
    ]

    -- `handleCreate`
    unfoldable pub handle_create : World → ℕ → Event → TaskCreate → World
    handle_create w now e spec =
        let (c, w') = create w now spec in
        (respond w' now e.source (some e.id) (task_create_response c.task_id c.created c.reason)).0

    -- `handleTransition`
    unfoldable pub handle_transition : World → ℕ → Event → TaskId → TaskStatus → Option Text → World
    handle_transition w now e id to note =
        let (m, db) = transition w.db now e.source id to note in
        (respond (record w { db = db }) now e.source (some e.id)
          (task_transition_response m.transitioned m.reason)).0

    abbrev pub update_reply : TaskId → Option Task → Body
    update_reply id none = task_update_response false (some (task_not_found id))
    update_reply id (some _) = task_update_response true none

    abbrev pub archive_updated : Database → ℕ → Option Task → Database
    archive_updated db now none = db
    archive_updated db now (some t) = archive_closed db now (some t) t.status none

    -- `handleUpdate`: the response carries no correlation id, and a failed publish skips the archive.
    unfoldable pub handle_update : World → ℕ → Event → TaskId → TaskPatch → World
    handle_update w now e id patch =
        let (updated, db) = update_task w.db now id patch in
        let (w', sent) =
          respond (record w { db = db }) now e.source none (update_reply id updated) in
        elim sent [ err _ ↦ w' | ok _ ↦ record w' { db = archive_updated w'.db now updated } ]

    -- The `switch` of `handle`
    unfoldable pub dispatch : World → ℕ → Event → Body → World
    dispatch w now e (task_create_request spec) = handle_create w now e spec
    dispatch w now e (task_transition_request id to note) = handle_transition w now e id to note
    dispatch w now e (task_update_request id patch) = handle_update w now e id patch
    dispatch w now e _ = w

    -- `handle`
    unfoldable pub handle : World → ℕ → Event → World
    handle w now e = dispatch w now e e.body
