-- ===== src/System/Tests.antt =====
-- A task that is closed while a message is published and its worker goes on.
use xevos.Base.{false, arith, refl, ℕ, ◌≡◌, none, some, [], ◌∷◌, text, ℕ_discrete}
use xevos.Schema.Org.{
  Agent, agent_id, executive, organization, research, Role-discrete, Department-discrete,
}
use xevos.Schema.Task.{Task, TaskStatus, in_progress}
use xevos.Schema.Event.{external_error}
use xevos.Sql.InMemory.{list_sql}
use xevos.Db.{err}
use xevos.Bus.Core.{publish, recover, subscribe, open_bus}
use xevos.Bus.Startup.{boot, subscribe_all}
use xevos.Tasks.Repository.{get_task}
use xevos.Agents.Service.{Org}
use xevos.Agents.Loop.{Generate}
use xevos.Audit.Service.{Containers, threw}
use xevos.Principal.{directive}
use xevos.Toolbox.Handlers.{ToolCall, update_task_status, create_subordinate_agent}
use xevos.Toolbox.Service.{use_tool}
use xevos.System.Steps.{here, onward, publishes, calls, closed_forever}
use xevos.Agents.Policy.{Orderly}
use xevos.Agents.Orderly.{IsOrderly}
use xevos.System.Order.{Reaches-Orderly}
use xevos.Samples.{
  boss, boss_agent, hand_agent, build, db, consumers, near, models, json, of_outcome,
}

abbrev done : Task
done = record build { status = TaskStatus.completed }

abbrev start : Org
start = record {
  world = (recover (boot (record db { tasks = done ∷ [] }) consumers)).1;
  launched = boss_agent ∷ hand_agent ∷ [];
}

abbrev told : Org
told = record start { world = (publish start.world 5 (directive boss (text "reopen it"))).0 }

abbrev reopens : ToolCall
reopens = update_task_status 1 in_progress (text "asked to")

abbrev no_containers : Containers
no_containers = record {
  Docker = ℕ;
  start = λ d name. (false, d);
  probe = λ d name. (none, d);
  pause = λ d name. d;
  judge = λ d prompt attached. (threw, d);
}

abbrev failing : Generate
failing prompt messages = ([], err external_error)

closed_forever_example :
    get_task (use_tool near models json of_outcome told 6 hand_agent reopens).1.world.db 1
    ≡ some done
unfolding recover boot subscribe_all subscribe open_bus get_task ℕ_discrete
closed_forever_example =
    closed_forever near models json no_containers of_outcome failing start
      (use_tool near models json of_outcome told 6 hand_agent reopens).1 1 done
      (onward told _ (onward start told here (publishes 5 (directive boss (text "reopen it"))))
        (calls 6 hand_agent reopens))
      ((tt, tt), tt) refl refl

abbrev chief : Agent
chief = record boss_agent {
  id = agent_id executive organization 1;
  role = executive;
  department = organization;
  manages = [];
}

abbrev small : Org
small = record {
  world = (recover (boot (record db { agents = chief ∷ [] }) consumers)).1;
  launched = chief ∷ [];
}

chief-IsOrderly : IsOrderly (chief ∷ [])
unfolding Role-discrete Department-discrete
chief-IsOrderly = record {
  size = omega arith;
  placed = (((refl, refl), refl), tt);
  span = (omega arith, tt);
}

small-Orderly : Orderly small
unfolding recover boot subscribe_all subscribe open_bus
small-Orderly = chief-IsOrderly

abbrev spawns : ToolCall
spawns = create_subordinate_agent (some research)

Reaches-Orderly_example : Orderly (use_tool near models json of_outcome small 6 chief spawns).1
Reaches-Orderly_example =
    Reaches-Orderly near models json no_containers of_outcome failing small
      (use_tool near models json of_outcome small 6 chief spawns).1
      (onward small _ here (calls 6 chief spawns)) small-Orderly
