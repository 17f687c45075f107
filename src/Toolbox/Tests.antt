-- ===== src/Toolbox/Tests.antt =====
-- The tools of a worker and its manager.
use xevos.Base.{refl, true, [], text, ℕ_discrete}
use xevos.Schema.Org.{AgentId-discrete, EndpointId-discrete, Role, engineering}
use xevos.Schema.Task.{TaskStatus, TaskStatus-discrete}
use xevos.Schema.Reasons.{message_of}
use xevos.Sql.InMemory.{list_sql}
use xevos.Db.{ok}
use xevos.Bus.Store.{load_pending}
use xevos.Bus.Core.{replay, recover, subscribe, open_bus}
use xevos.Bus.Startup.{boot, subscribe_all}
use xevos.Bus.History.{turns, history-Inv}
use xevos.Tasks.Repository.{get_task}
use xevos.Tasks.Service.{transition, refusal, manager_of}
use xevos.Agents.Repository.{get_agent}
use xevos.Agents.Service.{subordinate}
use xevos.Toolbox.Results.{ToolResult, failure}
use xevos.Toolbox.Handlers.{ToolCall, update_task_status, run, run_transition}
use xevos.Toolbox.Service.{use_tool}
use xevos.Toolbox.Parity.{Agree, by_bus, direct-Agree}
use xevos.Toolbox.Observed.{Observed, use_tool-Observed}
use xevos.Samples.{boss, hand_agent, db, consumers, org, near, models, json, of_outcome}

-- The worker, who is not its own manager, calls its task completed.
abbrev claim : ToolCall
claim = update_task_status 1 TaskStatus.completed (text "done")

abbrev told : ToolResult
told = failure (text "only the task's manager may mark it completed")

direct-Agree_example : Agree (use_tool near models json of_outcome org 5 hand_agent claim).1 (
    by_bus near models json of_outcome org 5 9 hand_agent
      (subordinate boss Role.worker engineering)
      claim)
direct-Agree_example =
    direct-Agree near models json of_outcome org 5 9 hand_agent
      (subordinate boss Role.worker engineering) claim refl tt

use_tool-Observed_example :
    Observed near models json of_outcome org 5 hand_agent claim
      (ok told)
      true
      (use_tool near models json of_outcome org 5 hand_agent claim)
unfolding run run_transition transition refusal manager_of get_task get_agent turns recover boot
    subscribe_all subscribe open_bus replay load_pending ℕ_discrete TaskStatus-discrete
    AgentId-discrete EndpointId-discrete message_of
use_tool-Observed_example =
    use_tool-Observed near models json of_outcome org 5 hand_agent claim
      (history-Inv db consumers [] tt) refl
