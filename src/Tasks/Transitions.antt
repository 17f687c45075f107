-- ===== src/Tasks/Transitions.antt =====
-- `transition` and `task_update_request` of core/services/task.ts: what they check and what they write.
use xevos.Base.{
  ℕ, ◌≡◌, refl, ap, ◌∙◌, true, false, subst, Bool-cases, Option, Option-cases, none, some, ◌==◌,
  Text, inl, inr, arith, if◌then◌else◌, nat_eq,
}
use xevos.Schema.Org.{EndpointId}
use xevos.Schema.Task.{
  TaskId, TaskStatus, TaskStatus-discrete, task_status_eq, Task, TaskPatch, ClosedReason,
}
use xevos.Schema.Event.{Reason, task_not_found, illegal_transition, only_manager_completes}
use xevos.Sql.{Sql}
use xevos.Sql.Rows.{get, get-set_where}
use xevos.Db.{Database, Result-cases}
use xevos.Tasks.Repository.{task_key, get_task, update_task, apply_patch}
use xevos.Agents.Repository.{get_agent}
use xevos.Memory.Service.{Models}
use xevos.Memory.Frame.{Kept, kept_refl, close_task-Kept}
use xevos.Tasks.Service.{
  may_move, closed_as, status_patch, manager_of, is_manager, refusal, archive, archive_closed, move,
  transition,
}

-- The row of an id after a patch of the row `id`.
abbrev pub patched : TaskId → (Task → Task) → TaskId → Option Task → Option Task
patched id f j o = if id == j then elim o [ none ↦ none | some t ↦ some (f t) ] else o

module _ ⦃sql : Sql⦄ where
  -- The row of every id after an update.
  pub get-update_task :
      (db : Database) (now : ℕ) (id : TaskId) (p : TaskPatch) (j : TaskId)
      → get_task (update_task db now id p).1 j ≡ patched id (apply_patch p now) j (get_task db j)
  unfolding get_task update_task
  get-update_task db now id p j =
      rw (sql.rows-update (λ t. task_key t == id) (apply_patch p now) db.tasks)
        (get-set_where task_key id j (apply_patch p now) (sql.rows db.tasks) (λ t. refl))

  pub get_task-Kept :
      (db db' : Database) → Kept db db' → (j : TaskId) → get_task db' j ≡ get_task db j
  unfolding get_task
  get_task-Kept db db' k j = ap (λ t. get task_key j (sql.rows t)) k.tasks

  module _ (models : Models) where
    archive-Kept :
        (db : Database) (now : ℕ) (t : Task) (r : ClosedReason) (why : Option Text)
        → Kept db (archive models db now t r why)
    unfolding archive
    archive-Kept db now t r why = elim (Option-cases t.assigned_to) [
      | inl e ↦ rw (e, archive) (kept_refl db)
      | inr (a, e) ↦ elim (Result-cases (get_agent db a)) [
        | inl (b, f) ↦ rw (e, f, archive) (close_task-Kept models db now b.id t.id r why)
        | inr (x, f) ↦ rw (e, f, archive) (kept_refl db)
      ]
    ]

    pub archive_closed-Kept :
        (db : Database) (now : ℕ) (o : Option Task) (to : TaskStatus) (why : Option Text)
        → Kept db (archive_closed models db now o to why)
    unfolding archive_closed
    archive_closed-Kept db now none to why = kept_refl db
    archive_closed-Kept db now (some t) to why = elim (Option-cases (closed_as to)) [
      | inl e ↦ rw (e, archive_closed) (kept_refl db)
      | inr (r, e) ↦ rw (e, archive_closed) (archive-Kept db now t r why)
    ]

    -- The row of every id after a move.
    pub get-move :
        (db : Database) (now : ℕ) (id : TaskId) (to : TaskStatus) (why : Option Text) (j : TaskId)
        → get_task (move models db now id to why) j
          ≡ patched id (apply_patch (status_patch to) now) j (get_task db j)
    unfolding move
    get-move db now id to why j =
        let (updated, db') = update_task db now id (status_patch to) in
        get_task-Kept db' (archive_closed models db' now updated to why)
          (archive_closed-Kept db' now updated to why) j
        ∙ get-update_task db now id (status_patch to) j

    -- The reason of a refusal is true of the task and of the mover.
    abbrev pub Explains : Database → EndpointId → TaskId → TaskStatus → Reason → Type 0
    Explains db source id to (task_not_found i) = (i ≡ id) × (get_task db id ≡ none)
    Explains db source id to (illegal_transition from next) =
        (t : Task) × (get_task db id ≡ some t)
        × (from ≡ t.status)
        × (next ≡ to)
        × (may_move t.status to ≡ false)
    Explains db source id to only_manager_completes =
        (t : Task) × (get_task db id ≡ some t)
        × (may_move t.status to ≡ true)
        × (to ≡ TaskStatus.completed)
        × (is_manager source (manager_of db t) ≡ false)
    Explains db source id to _ = ⊥

    is_completed : (s : TaskStatus) → (s == TaskStatus.completed) ≡ true → s ≡ TaskStatus.completed
    unfolding TaskStatus-discrete
    is_completed s h = ground (arith, h)

    refusal-Explains :
        (db : Database) (source : EndpointId) (id : TaskId) (to : TaskStatus) (t : Task)
        (r : Reason)
        → get_task db id ≡ some t
        → refusal db source to t ≡ some r
        → Explains db source id to r
    unfolding refusal
    refusal-Explains db source id to t r found h = elim (Bool-cases (may_move t.status to)) [
      | inr illegal ↦
          subst (Explains db source id to) {x = illegal_transition t.status to}
            (ground (arith, illegal, h)) (t, found, refl, refl, illegal)
      | inl legal ↦ elim (Bool-cases (is_manager source (manager_of db t))) [
        | inl manages ↦ absurd (ground (arith, legal, manages, h))
        | inr stranger ↦ elim (Bool-cases (to == TaskStatus.completed)) [
          | inl done ↦
              subst (Explains db source id to) {x = only_manager_completes}
                (ground (arith, legal, stranger, done, h))
                (t, found, legal, is_completed to done, stranger)
          | inr other ↦ absurd (ground (arith, legal, stranger, other, h))
        ]
      ]
    ]

    -- A transition that was refused wrote nothing, and the reason that it gives is true: the task is not
    -- on file, or VALID_TRANSITIONS does not lead from its status to the new one, or it does and the new
    -- one is completed, and the mover is not the manager of the task's assignee.
    pub transition_refused :
        (db : Database) (now : ℕ) (source : EndpointId) (id : TaskId) (to : TaskStatus)
        (why : Option Text)
        → (transition models db now source id to why).0.transitioned ≡ false
        → ((transition models db now source id to why).1 ≡ db)
          × ((r : Reason) × ((transition models db now source id to why).0.reason ≡ some r)
              × Explains db source id to r)
    unfolding transition
    transition_refused db now source id to why h = elim (Option-cases (get_task db id)) [
      | inl e ↦ (ground (arith, e), (task_not_found id, ground (arith, e), (refl, e)))
      | inr (t, e) ↦ elim (Option-cases (refusal db source to t)) [
        | inl r ↦ absurd (ground (arith, e, r, h))
        | inr (x, r) ↦ (
          ground (arith, e, r),
          (x, ground (arith, e, r), refusal-Explains db source id to t x e r),
        )
      ]
    ]

    -- What an accepted transition has checked, and the rows after it.
    pub record Accepted (db : Database) (now : ℕ) (source : EndpointId) (id : TaskId)
        (to : TaskStatus) (db' : Database) : Type 0 where
      pub task : Task
      pub found : get_task db id ≡ some task
      pub legal : may_move task.status to ≡ true
      pub authority :
          (if to == TaskStatus.completed then is_manager source (manager_of db task) else true)
          ≡ true
      pub written :
          (j : TaskId)
          → get_task db' j
            ≡ (if id == j then some (apply_patch (status_patch to) now task) else get_task db j)

    refusal-none :
        (db : Database) (source : EndpointId) (to : TaskStatus) (t : Task)
        → refusal db source to t ≡ none
        → (may_move t.status to ≡ true)
          × ((if to == TaskStatus.completed then is_manager source (manager_of db t) else true)
              ≡ true)
    unfolding refusal
    refusal-none db source to t h = ground arith

    Accepted-of :
        (db : Database) (now : ℕ) (source : EndpointId) (id : TaskId) (to : TaskStatus)
        (why : Option Text) (t : Task)
        → get_task db id ≡ some t
        → refusal db source to t ≡ none
        → Accepted db now source id to (move models db now id to why)
    Accepted-of db now source id to why t found r =
        let checked = refusal-none db source to t r in
        record {
          task = t;
          found = found;
          legal = checked.0;
          authority = checked.1;
          written = λ j. get-move db now id to why j ∙ ground (arith, found);
        }

    -- An accepted transition moved an existing task along `VALID_TRANSITIONS`; into `completed` only
    -- at the word of its assignee's manager; and it wrote the status and the time of that task alone.
    pub transition-Accepted :
        (db : Database) (now : ℕ) (source : EndpointId) (id : TaskId) (to : TaskStatus)
        (why : Option Text)
        → (transition models db now source id to why).0.transitioned ≡ true
        → Accepted db now source id to (transition models db now source id to why).1
    unfolding transition
    transition-Accepted db now source id to why h = elim (Option-cases (get_task db id)) [
      | inl e ↦ absurd (ground (arith, e))
      | inr (t, e) ↦ elim (Option-cases (refusal db source to t)) [
        | inl r ↦ rw (e, r, transition) (Accepted-of db now source id to why t e r)
        | inr (x, r) ↦ absurd (ground (arith, e, r))
      ]
    ]
