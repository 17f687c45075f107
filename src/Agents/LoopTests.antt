-- ===== src/Agents/LoopTests.antt =====
-- A worker that is given a message, and one whose model throws.
use xevos.Base.{ℕ, suc, true, some, none, [], ◌∷◌, text}
use xevos.Schema.Org.{agent}
use xevos.Schema.Event.{Event, external_error, information_request}
use xevos.Sql.InMemory.{list_sql}
use xevos.Db.{err}
use xevos.Memory.Repository.{messages_of, get_memory}
use xevos.Memory.Recall.{assemble_context}
use xevos.Memory.Context.{Assembled, assemble_context-Assembled}
use xevos.Agents.Loop.{Workbench, Generate}
use xevos.Toolbox.Handlers.{wait_until_response}
use xevos.Samples.{boss, hand, hand_agent, db, near, models, json}

abbrev question : Event
question = record {
  id = 4;
  source = agent boss;
  target = agent hand;
  correlation_id = none;
  body = information_request (text "how far is it?");
}

-- A model that waits, and then fails.
abbrev failing : Generate
failing prompt messages = ((6, wait_until_response (text "nothing to do")) ∷ [], err external_error)

-- A container in which every command succeeds.
abbrev bench : Workbench
bench = record { Docker = ℕ; start = λ d. (true, d); exec = λ d command. (some 0, suc d) }

assemble_context-Assembled_example :
    Assembled near models json db
      (messages_of (get_memory db hand))
      (assemble_context near models json db hand_agent question)
assemble_context-Assembled_example =
    assemble_context-Assembled near models json db hand_agent question
