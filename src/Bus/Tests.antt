-- ===== src/Bus/Tests.antt =====
-- The bus on concrete databases and events.
use xevos.Base.{◌≡◌, refl, ℕ, none, some, List, [], ◌∷◌, ◌++◌, text, ℕ_discrete}
use xevos.Schema.Org.{
  EndpointId, agent, service, principal, agent_id, executive, organization, tasks_service,
  EndpointId-discrete,
}
use xevos.Schema.Event.{EventInput, message}
use xevos.Sql.InMemory.{list_sql}
use xevos.Db.{Database}
use xevos.Bus.Mailbox.{Slot, push, take_next}
use xevos.Bus.Store.{append, enqueue, mark_consumed, load_pending}
use xevos.Bus.Fifo.{outstanding, pushes, takes, run, start, step, run_conserves}
use xevos.Bus.Core.{
  envelope, open_bus, subscribe, unsubscribe, publish, post, take, recover, replay,
}
use xevos.Bus.Durable.{Inv}
use xevos.Bus.Publish.{Published, publish_lem}
use xevos.Bus.Startup.{boot, subscribe_all}
use xevos.Bus.History
use xevos.Bus.Lives.{Change, moves, subscribes, unsubscribes, change, changes, changes-Inv}
use xevos.Bus.History.{Turn, turns, turn, history-Inv, crash_restores}

abbrev empty_db : Database
empty_db = record {
  agents = [];
  tasks = [];
  memories = [];
  warehouse = [];
  vectors = [];
  prompts = [];
  events = [];
  inbox = [];
  counters = [];
}

abbrev ceo : EndpointId
ceo = agent (agent_id executive organization 1)

abbrev hello : EventInput
hello = record {
  source = principal;
  target = ceo;
  correlation_id = none;
  body = message (text "hello");
}

abbrev consumers : List EndpointId
consumers = service tasks_service ∷ ceo ∷ []

abbrev slot : ℕ → Slot
slot n = record { event = envelope n hello; inbox_id = some n }

run_conserves_example :
    (run start (takes ∷ pushes (slot 1) ∷ pushes (slot 2) ∷ takes ∷ [])).acked
      ++ outstanding (run start (takes ∷ pushes (slot 1) ∷ pushes (slot 2) ∷ takes ∷ [])).box
    ≡ slot 1 ∷ slot 2 ∷ []
run_conserves_example = (run_conserves (takes ∷ pushes (slot 1) ∷ pushes (slot 2) ∷ takes ∷ [])).0

acked_first :
    (run start (takes ∷ pushes (slot 1) ∷ pushes (slot 2) ∷ takes ∷ [])).acked ≡ slot 1 ∷ []
unfolding run step push take_next
acked_first = refl

-- One life: two messages, and the executive takes the first and comes back.
abbrev life : List Turn
life =
    History.publishes 5 hello
    ∷ History.publishes 6 hello
    ∷ History.takes ceo
    ∷ History.takes ceo
    ∷ []

-- The executive handles a message, is halted while another one is sent, and is launched again.
abbrev absence : List Change
absence =
    moves (History.publishes 5 hello)
    ∷ moves (History.takes ceo)
    ∷ moves (History.takes ceo)
    ∷ unsubscribes ceo
    ∷ moves (History.publishes 6 hello)
    ∷ subscribes ceo
    ∷ moves (History.publishes 7 hello)
    ∷ []

changes-Inv_example : Inv (changes (recover (boot empty_db consumers)).1 absence)
unfolding boot changes change turn push take_next recover subscribe_all open_bus subscribe
    unsubscribe publish post append enqueue take mark_consumed replay load_pending
    EndpointId-discrete ℕ_discrete
changes-Inv_example =
    changes-Inv empty_db consumers absence tt (tt, (tt, (tt, (tt, (tt, (refl, (tt, tt)))))))

publish_lem_example :
    Published
      (recover (boot empty_db consumers)).1
      7
      hello
      (publish (recover (boot empty_db consumers)).1 7 hello)
unfolding turns
publish_lem_example =
    publish_lem (recover (boot empty_db consumers)).1 7 hello (history-Inv empty_db consumers [] tt)

crash_restores_example :
    outstanding (
      (recover (boot (turns (recover (boot empty_db consumers)).1 life).db consumers)).1.bus.boxes
        1)
    ≡ outstanding ((turns (recover (boot empty_db consumers)).1 life).bus.boxes 1)
unfolding boot turns turn recover subscribe_all open_bus subscribe publish post append enqueue take
    mark_consumed replay load_pending EndpointId-discrete ℕ_discrete
crash_restores_example = crash_restores empty_db consumers consumers life ceo 1 1 tt refl refl
