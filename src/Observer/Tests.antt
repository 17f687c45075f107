-- ===== src/Observer/Tests.antt =====
-- The observer of a log with one message of the principal.
use xevos.Base.{◌≡◌, true, none, some, [], ◌∷◌, text}
use xevos.Schema.Org.{EndpointId-discrete}
use xevos.Sql.InMemory.{list_sql}
use xevos.Bus.Core.{recover, subscribe, open_bus}
use xevos.Bus.Startup.{boot, subscribe_all}
use xevos.Bus.History.{turns, history-Inv}
use xevos.Principal.{reply}
use xevos.Observer.Queries.{message_from_row}
use xevos.Observer.Server.{Server}
use xevos.Observer.History.{load_history, load_history_lem}
use xevos.Observer.Live.{Live, publish-Live}
use xevos.Samples.{boss, said, db, consumers, world}

load_history_lem_example : load_history 2 db none 50 ≡ some (message_from_row said ∷ [])
unfolding EndpointId-discrete
load_history_lem_example = load_history_lem db 49 (tt, tt)

abbrev server : Server Unit
server = record { clients = (1, true) ∷ []; sent = []; task_watermark = 0; flush_scheduled = true }

publish-Live_example : Live server world 5 (reply boss (text "done"))
unfolding turns recover boot subscribe_all subscribe open_bus
publish-Live_example =
    publish-Live server world 5 (reply boss (text "done")) (history-Inv db consumers [] tt)
