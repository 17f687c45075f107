-- ===== src/Memory/Service.antt =====
-- `closeTask` of core/services/memory.ts. The model that extracts a learning and the embedding model
-- are services that the program calls: either may fail.
use xevos.Base.{ℕ, Option, none, some, List, ◌∷◌, ◌++◌, Text, join}
use xevos.Schema.Org.{AgentId}
use xevos.Schema.Task.{TaskId, ClosedReason}
use xevos.Schema.Event.{task_not_found, external_error}
use xevos.Schema.Memory.{ModelMessage, Learning, WarehouseRow}
use xevos.Sql.{Sql}
use xevos.Db.{Database, Result, err}
use xevos.Tasks.Repository.{get_task}
use xevos.Memory.Repository.{messages_of, get_memory, clear_memory, archive_learning}
use xevos.Memory.Transcript.{newline, build_transcript}

-- `none` is an exception of the service that is called.
pub record Models : Type 0 where
  -- `generateText` with the learning schema
  pub extract_learning : Text → Option Learning
  -- `embedText`, serialized by `toVecBlob`
  pub embed_text : Text → Option (List ℕ)

-- `embedLearning`: a failure to embed leaves the learning unindexed.
unfoldable pub embed_learning : Models → Learning → Option (List ℕ)
embed_learning models l =
    models.embed_text
      (join newline (l.summary ∷ (l.key_findings ++ (l.decisions ++ l.lessons_learned))))

module _ ⦃sql : Sql⦄ (models : Models) where
  -- The clear and the archive both run, whatever becomes of the other.
  unfoldable pub close_with :
      Database
      → ℕ
      → AgentId
      → TaskId
      → ClosedReason
      → List ModelMessage
      → Option Learning
      → Result WarehouseRow × Database
  close_with db now agent task reason messages none = (err external_error, db)
  close_with db now agent task reason messages (some learning) =
      archive_learning (clear_memory db agent) now
        (record {
          task_id = task;
          agent_id = agent;
          outcome = reason;
          learning = learning;
          messages = messages;
        })
        (embed_learning models learning)

  unfoldable pub close_task :
      Database → ℕ → AgentId → TaskId → ClosedReason → Option Text → Result WarehouseRow × Database
  unfolding close_with embed_learning
  close_task db now agent task reason summary =
      let messages = messages_of (get_memory db agent) in
      elim (get_task db task) [
        | none ↦ (err (task_not_found task), db)
        | some t ↦
            close_with db now agent task reason messages
              (models.extract_learning (build_transcript t reason summary messages))
      ]
