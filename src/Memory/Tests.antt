-- ===== src/Memory/Tests.antt =====
-- Closing a task of an agent with one message in its memory.
use xevos.Base.{refl, none, some, [], ◌∷◌, text, ℕ_discrete}
use xevos.Schema.Org.{AgentId, agent_id, worker, research, AgentId-discrete}
use xevos.Schema.Task.{Task, TaskStatus, ClosedReason, normal}
use xevos.Schema.Memory.{Learning, WarehouseRow, ModelMessage, user, plain}
use xevos.Sql.InMemory.{list_sql}
use xevos.Db.{Database, CounterKey-discrete}
use xevos.Db.Counters.{next_id}
use xevos.Tasks.Repository.{get_task}
use xevos.Memory.Repository.{get_memory, clear_memory, archive_learning, index_row}
use xevos.Memory.Service.{Models, close_task, close_with, embed_learning}
use xevos.Memory.Closing.{Closed, close_task-Closed}

abbrev hand : AgentId
hand = agent_id worker research 1

abbrev learning : Learning
learning = record { summary = text "done"; key_findings = []; decisions = []; lessons_learned = [] }

abbrev models : Models
models = record { extract_learning = λ _. some learning; embed_text = λ t. some t }

abbrev greeting : ModelMessage
greeting = record { role = user; id = none; content = plain (text "hello") }

abbrev built : Task
built = record {
  id = 1;
  status = TaskStatus.completed;
  referce_task = none;
  review = none;
  title = text "find";
  description = text "find it";
  acceptance_criteria = [];
  dependencies = [];
  assigned_to = some hand;
  priority = normal;
  deadline = none;
  budget = record { max_tokens = 1000; max_usd = 1 };
  created_at = 2;
  updated_at = 3;
}

abbrev db : Database
db = record {
  agents = [];
  tasks = built ∷ [];
  memories = record { agent_id = hand; messages = greeting ∷ []; updated_at = 2 } ∷ [];
  warehouse = [];
  vectors = [];
  prompts = [];
  events = [];
  inbox = [];
  counters = [];
}

abbrev kept : WarehouseRow
kept = record {
  rowid = 1;
  memory_id = 1;
  task_id = 1;
  agent_id = hand;
  outcome = ClosedReason.completed;
  learning = learning;
  messages = greeting ∷ [];
  created_at = 4;
}

close_task-Closed_example :
    Closed db hand 1 kept (close_task models db 4 hand 1 ClosedReason.completed none).1
unfolding close_task close_with get_task get_memory clear_memory archive_learning index_row
    embed_learning next_id ℕ_discrete AgentId-discrete CounterKey-discrete
close_task-Closed_example =
    close_task-Closed models db 4 hand 1 ClosedReason.completed none kept refl
