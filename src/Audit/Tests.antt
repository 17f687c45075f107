-- ===== src/Audit/Tests.antt =====
-- The auditor on the work of an engineering worker.
use xevos.Base.{ℕ, zero, suc, ◌≡◌, true, none, some, List, [], ◌∷◌, text, ℕ_discrete}
use xevos.Schema.Org.{agent, service, auditor_service, Role-discrete, Department-discrete}
use xevos.Schema.Task.{approved}
use xevos.Schema.Event.{Event, review_presentation_request}
use xevos.Schema.Memory.{ModelMessage, assistant, parts, tool_call}
use xevos.Schema.Print.{endpoint_text}
use xevos.Sql.InMemory.{list_sql}
use xevos.Bus.Core.{recover, subscribe, open_bus}
use xevos.Bus.Startup.{boot, subscribe_all}
use xevos.Bus.History.{turns, history-Inv}
use xevos.Audit.Report.{is_engineering_worker}
use xevos.Audit.Service.{Containers, recorded, poll, review}
use xevos.Audit.Ids.{is_engineering_worker_lem}
use xevos.Audit.Polling.{Polled, load_action_log_lem}
use xevos.Audit.Verdicts.{Reviewed, review-Reviewed}
use xevos.Samples.{hand, db, consumers, world}

-- A container with three files, and a model that approves.
abbrev containers : Containers
containers = record {
  Docker = ℕ;
  start = λ d name. (true, d);
  probe = λ d name. (some (text "3"), d);
  pause = λ d name. d;
  judge = λ d prompt attached. (recorded (record { verdict = approved; notes = text "good" }), d);
}

abbrev submission : ModelMessage
submission = record {
  role = assistant;
  id = none;
  content =
      parts (tool_call (text "request_review") (record { json = text "{}"; string = none }) ∷ []);
}

-- The submission lands before the third read.
abbrev reads : ℕ → List ModelMessage
reads zero = []
reads (suc zero) = []
reads (suc (suc n)) = submission ∷ []

abbrev request : Event
request = record {
  id = 4;
  source = agent hand;
  target = service auditor_service;
  correlation_id = none;
  body = review_presentation_request (text "it runs") (some 1);
}

is_engineering_worker_lem_example : is_engineering_worker (endpoint_text (agent hand)) ≡ true
unfolding ℕ_discrete Role-discrete Department-discrete
is_engineering_worker_lem_example = is_engineering_worker_lem (agent hand)

load_action_log_lem_example : Polled reads 0 6 (poll reads 6 0 [])
load_action_log_lem_example = load_action_log_lem reads

review-Reviewed_example :
    Reviewed containers world 0 5 request
      (text "it runs")
      (some 1)
      reads
      (review containers world 0 5 request (text "it runs") (some 1) reads)
unfolding turns recover boot subscribe_all subscribe open_bus
review-Reviewed_example =
    review-Reviewed containers world 0 5 request (text "it runs") (some 1) reads
      (history-Inv db consumers [] tt)
