-- ===== src/Bus/Frame.antt =====
-- `publish` writes the log and the inbox and no other table.
use xevos.Base.{ℕ, ◌≡◌, arith}
use xevos.Schema.Event.{Event, EventInput}
use xevos.Sql.{Sql}
use xevos.Bus.Store.{append, enqueue}
use xevos.Db.{Database}
use xevos.Bus.Core.{World, post, publish}
use xevos.Bus.Durable.{Inv}

module _ ⦃sql : Sql⦄ where
  post-tables :
      (w : World) (now : ℕ) (e : Event)
      → ((post w now e).db.tasks ≡ w.db.tasks)
        × ((post w now e).db.agents ≡ w.db.agents)
        × ((post w now e).db.counters ≡ w.db.counters)
  unfolding post enqueue
  post-tables w now e = (ground arith, ground arith, ground arith)

  -- A publish leaves tasks, agents and counters as they were.
  pub publish-tables :
      (w : World) (now : ℕ) (e : EventInput)
      → ((publish w now e).0.db.tasks ≡ w.db.tasks)
        × ((publish w now e).0.db.agents ≡ w.db.agents)
        × ((publish w now e).0.db.counters ≡ w.db.counters)
  unfolding publish append
  publish-tables w now e =
      (grind (arith, post-tables), grind (arith, post-tables), grind (arith, post-tables))

  -- Only the log and the inbox matter to the bus.
  pub Inv-db :
      (w : World) (db : Database)
      → db.events ≡ w.db.events
      → db.inbox ≡ w.db.inbox
      → Inv w
      → Inv (record w { db = db })
  Inv-db w db he hi v = record {
    durable = v.durable;
    ascending = rw hi v.ascending;
    logged = rw he v.logged;
    apart = v.apart;
    coherent = v.coherent;
    held = λ e r h. rw hi (v.held e r h);
  }
