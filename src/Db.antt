-- ===== src/Db.antt =====
-- The one SQLite database of packages/core/src/db/schema.ts, and the id counters that the
-- repositories share. A fallible operation returns a `Result`; a transaction that fails changes
-- nothing.
pub mod Counters
use xevos.Base.{ℕ, ℕ_discrete, ◌≡◌, refl, ◌⊎◌, inl, inr, Bool, Option, Text, Eq}
use xevos.Schema.Org.{RoleDefinitionId, Agent, EndpointId, Role, Department}
use xevos.Schema.Task.{Task}
use xevos.Schema.Event.{EventId, Event, Body, Reason}
use xevos.Schema.Memory.{AgentMemory, WarehouseRow, VectorRow}
use xevos.Sql.{Sql}

pub data Result {ℓ} (A : Type ℓ) : Type ℓ where
  ok : A → Result A
  err : Reason → Result A

pub data CounterKey : Type 0 where
  task_counter memory_counter : CounterKey
  role_counter : RoleDefinitionId → CounterKey

unfoldable pub CounterKey-discrete : Discrete CounterKey
CounterKey-discrete = hlevel

instance abbrev pub counter_key_eq : Eq CounterKey
counter_key_eq = record { dec = CounterKey-discrete }

pub record Counter : Type 0 where
  pub key : CounterKey
  pub value : ℕ

pub data InboxStatus : Type 0 where
  pending consumed : InboxStatus

pub record InboxRow : Type 0 where
  pub id : ℕ
  pub target : EndpointId
  pub event : Event
  pub status : InboxStatus
  pub created_at : ℕ

-- A row of the append-only log.
pub record EventRow : Type 0 where
  pub seq : ℕ
  pub source : EndpointId
  pub target : EndpointId
  pub body : Body
  pub correlation_id : Option EventId
  pub created_at : ℕ

pub data PromptKey : Type 0 where
  role_key : Role → PromptKey
  department_key : Department → PromptKey

unfoldable pub PromptKey-discrete : Discrete PromptKey
PromptKey-discrete = hlevel

instance abbrev pub prompt_key_eq : Eq PromptKey
prompt_key_eq = record { dec = PromptKey-discrete }

pub record PromptRow : Type 0 where
  pub key : PromptKey
  pub content : Text
  pub updated_at : ℕ

pub record Database ⦃sql : Sql⦄ : Type 0 where
  pub agents : sql.Table Agent
  pub tasks : sql.Table Task
  pub memories : sql.Table AgentMemory
  pub warehouse : sql.Table WarehouseRow
  pub vectors : sql.Table VectorRow
  pub prompts : sql.Table PromptRow
  pub events : sql.Table EventRow
  pub inbox : sql.Table InboxRow
  pub counters : sql.Table Counter

-- To split on a computed result and keep the equation.
pub Result-cases {ℓ} :
    {A : Type ℓ} (r : Result A) → ((a : A) × (r ≡ ok a)) ⊎ ((why : Reason) × (r ≡ err why))
Result-cases (ok a) = inl (a, refl)
Result-cases (err why) = inr (why, refl)
