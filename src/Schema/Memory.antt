-- ===== src/Schema/Memory.antt =====
-- core/schema/memory.schema.ts, and the messages of the ai SDK as far as the program reads them.
-- A payload of `unknown` type is seen through its two renderings.
use xevos.Base.{ℕ, List, Option, Text}
use xevos.Schema.Org.{AgentId}
use xevos.Schema.Task.{TaskId, ClosedReason}

pub data Speaker : Type 0 where
  system user assistant tool : Speaker

-- `JSON.stringify(value)`, and the value itself where it is a string.
pub record Payload : Type 0 where
  pub json : Text
  pub string : Option Text

pub data Part : Type 0 where
  text_part : Text → Part
  reasoning : Text → Part
  tool_call : (tool_name : Text) (input : Payload) → Part
  tool_result : (tool_name : Text) (output : Payload) → Part
  other_part : Part

pub data Content : Type 0 where
  plain : Text → Content
  parts : List Part → Content

-- `id` is set on the warehouse message only.
pub record ModelMessage : Type 0 where
  pub role : Speaker
  pub id : Option Text
  pub content : Content

pub record AgentMemory : Type 0 where
  pub agent_id : AgentId
  pub messages : List ModelMessage
  pub updated_at : ℕ

pub record Learning : Type 0 where
  pub summary : Text
  pub key_findings : List Text
  pub decisions : List Text
  pub lessons_learned : List Text

-- A row of `memory_warehouse`; `memory_${n}` is its number.
pub record WarehouseRow : Type 0 where
  pub rowid : ℕ
  pub memory_id : ℕ
  pub task_id : TaskId
  pub agent_id : AgentId
  pub outcome : ClosedReason
  pub learning : Learning
  pub messages : List ModelMessage
  pub created_at : ℕ

-- A row of the sqlite-vec table `vec_memory`: the embedding as the blob that is stored.
pub record VectorRow : Type 0 where
  pub rowid : ℕ
  pub embedding : List ℕ
