-- ===== src/Principal/Tests.antt =====
-- The principal on a bus with the executive alone.
use xevos.Base.{refl, [], ◌∷◌, text}
use xevos.Schema.Org.{AgentId, agent_id, agent, executive, organization, EndpointId-discrete}
use xevos.Sql.InMemory.{list_sql}
use xevos.Db.{Database}
use xevos.Bus.Store.{load_pending}
use xevos.Bus.Core.{World, recover, replay, subscribe, open_bus}
use xevos.Bus.Startup.{boot, subscribe_all}
use xevos.Bus.History.{turns, history-Inv}
use xevos.Principal.{Shown, receive, receive_lem}

abbrev ceo : AgentId
ceo = agent_id executive organization 1

abbrev db : Database
db = record {
  agents = [];
  tasks = [];
  memories = [];
  warehouse = [];
  vectors = [];
  prompts = [];
  events = [];
  inbox = [];
  counters = [];
}

abbrev world : World
world = (recover (boot db (agent ceo ∷ []))).1

receive_lem_example : Shown world 5 ceo (text "on it") (receive world 5 ceo (text "on it"))
unfolding turns recover boot subscribe_all subscribe open_bus EndpointId-discrete replay
    load_pending
receive_lem_example =
    receive_lem world 5 ceo (text "on it") (history-Inv db (agent ceo ∷ []) [] tt) refl
