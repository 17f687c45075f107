-- ===== src/Schema/Task.antt =====
-- core/schema/task.schema.ts. An id `task_${n}` is its number.
use xevos.Base.{ℕ, List, Option, Text, Eq}
use xevos.Schema.Org.{AgentId}

abbrev pub TaskId : Type 0
TaskId = ℕ

pub data TaskStatus : Type 0 where
  backlog assigned in_progress blocked in_review completed failed cancelled : TaskStatus

unfoldable pub TaskStatus-discrete : Discrete TaskStatus
TaskStatus-discrete = hlevel

instance abbrev pub task_status_eq : Eq TaskStatus
task_status_eq = record { dec = TaskStatus-discrete }

pub data ClosedReason : Type 0 where
  completed failed cancelled : ClosedReason

pub data TaskPriority : Type 0 where
  low normal high urgent : TaskPriority

pub data ReviewVerdict : Type 0 where
  approved changes_requested : ReviewVerdict

pub record Review : Type 0 where
  pub reviewer : AgentId
  pub verdict : ReviewVerdict
  pub notes : Text

-- The program carries budgets and never computes with them.
pub record TaskBudget : Type 0 where
  pub max_tokens : ℕ
  pub max_usd : ℕ

pub record Task : Type 0 where
  pub id : TaskId
  pub status : TaskStatus
  pub referce_task : Option (List TaskId)
  pub review : Option Review
  pub title : Text
  pub description : Text
  pub acceptance_criteria : List Text
  pub dependencies : List TaskId
  pub assigned_to : Option AgentId
  pub priority : TaskPriority
  pub deadline : Option ℕ
  pub budget : TaskBudget
  pub created_at : ℕ
  pub updated_at : ℕ

-- `Partial<MutableTask>`: `none` for a key that is absent.
pub record TaskPatch : Type 0 where
  pub status : Option TaskStatus
  pub review : Option (Option Review)
  pub assigned_to : Option (Option AgentId)
  pub priority : Option TaskPriority
  pub deadline : Option (Option ℕ)

pub record TaskCreate : Type 0 where
  pub referce_task : Option (List TaskId)
  pub title : Text
  pub description : Text
  pub acceptance_criteria : List Text
  pub dependencies : List TaskId
  pub priority : TaskPriority
  pub assigned_to : Option AgentId
  pub deadline : Option ℕ
  pub budget : TaskBudget
