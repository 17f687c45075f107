-- ===== src/Observer/Queries.antt =====
-- observer/queries.ts: the aggregate state of the organization, and the pages of tasks and messages.
use xevos.Base.{
  ℕ, suc, Bool, false, ◌&&◌, ◌||◌, Option, none, some, List, [], ◌∷◌, map, keep, length, ltb, ◌==◌,
  nat_eq, or_else, Text, if◌then◌else◌,
}
use xevos.Schema.Org.{
  Role, role_eq, worker, AgentStatus, agent_status_eq, active, Agent, endpoint_eq, principal,
}
use xevos.Schema.Task.{Task, TaskStatus, task_status_eq, in_progress}
use xevos.Schema.Event.{Body, message}
use xevos.Sql.{Sql}
use xevos.Sql.Order.{order_by}
use xevos.Db.{Database, EventRow}
use xevos.Bus.Store.{event_seq, is_pending}
use xevos.Agents.Repository.{list_agents}
use xevos.Observer.Page.{Page, page}
use xevos.Web.Stream.{Message}

-- `Partial<Record<K, number>>`
abbrev pub Counts : Type 0 → Type 0
Counts K = K → Option ℕ

-- `counts[k] = (counts[k] ?? 0) + 1`
abbrev pub bump_role : Counts Role → Role → Counts Role
bump_role counts r q = if q == r then some (suc (or_else (counts r) 0)) else counts q

abbrev pub bump_status : Counts AgentStatus → AgentStatus → Counts AgentStatus
bump_status counts s q = if q == s then some (suc (or_else (counts s) 0)) else counts q

pub record Tally : Type 0 where
  pub by_role : Counts Role
  pub by_status : Counts AgentStatus
  pub active_workers : ℕ

-- The loop over the agents.
unfoldable pub tally : Tally → List Agent → Tally
tally t [] = t
tally t (a ∷ rest) =
    tally
      (record {
        by_role = bump_role t.by_role a.role;
        by_status = bump_status t.by_status a.status;
        active_workers =
            if a.status == active && a.role == worker
            then suc t.active_workers
            else t.active_workers;
      })
      rest

pub record OrgStats : Type 0 where
  pub agents : ℕ
  pub active_agents : ℕ
  pub active_workers : ℕ
  pub by_role : Counts Role
  pub by_status : Counts AgentStatus
  pub tasks : ℕ
  pub running_tasks : ℕ
  pub tasks_by_status : Counts TaskStatus
  pub queue_depth : ℕ

-- `group by status`: a status without a task has no row.
abbrev pub group_count : List Task → Counts TaskStatus
group_count ts s = let n = length (keep (λ t. t.status == s) ts) in if n == 0 then none else some n

-- A row of the log that `pageMessages` reads.
abbrev pub is_conversation : EventRow → Bool
is_conversation r = elim r.body [
  | message _ ↦ r.source == principal || r.target == principal
  | _ ↦ false
]

-- `content`, where it is a text
abbrev pub content_of : Body → Text
content_of (message t) = t
content_of _ = []

-- `messageFromRow`
abbrev pub message_from_row : EventRow → Message
message_from_row r = record {
  id = r.seq;
  seq = r.seq;
  ts = r.created_at;
  from = r.source;
  to = r.target;
  outgoing = r.source == principal;
  content = content_of r.body;
}

module _ ⦃sql : Sql⦄ where
  -- `stats` of `buildOrgState`
  unfoldable pub build_org_stats : Database → OrgStats
  build_org_stats db =
      let agents = list_agents db in
      let counted =
        tally (record { by_role = λ r. none; by_status = λ s. none; active_workers = 0 }) agents in
      let tasks = sql.rows db.tasks in
      record {
        agents = length agents;
        active_agents = or_else (counted.by_status active) 0;
        active_workers = counted.active_workers;
        by_role = counted.by_role;
        by_status = counted.by_status;
        tasks = length tasks;
        running_tasks = or_else (group_count tasks in_progress) 0;
        tasks_by_status = group_count tasks;
        queue_depth = length (keep is_pending (sql.rows db.inbox));
      }

  -- `pageTasks`; the implicit rowid of a row is the parameter.
  abbrev pub page_tasks : (Task → ℕ) → Database → Option ℕ → ℕ → Option (Page Task)
  page_tasks rowid db before limit = page rowid before limit (sql.rows db.tasks)

  -- `tasksChangedSince`
  unfoldable pub tasks_changed_since : Database → ℕ → List Task
  tasks_changed_since db watermark =
      order_by (λ t. t.updated_at) (keep (λ t. ltb watermark t.updated_at) (sql.rows db.tasks))

  -- The rows of the conversation.
  abbrev pub conversation : Database → List EventRow
  conversation db = keep is_conversation (sql.rows db.events)

  -- `pageMessages`
  unfoldable pub page_messages : Database → Option ℕ → ℕ → Option (Page Message)
  page_messages db before limit = elim (page event_seq before limit (conversation db)) [
    | none ↦ none
    | some p ↦ some (record { items = map message_from_row p.items; next_cursor = p.next_cursor })
  ]
