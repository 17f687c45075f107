-- ===== src/Bus/Publish.antt =====
-- `publish` on a durable bus: it never throws, it logs exactly one row, and it keeps the invariant.
use xevos.Base.{ℕ, suc, ◌≡◌, refl, sym, ◌∙◌, subst, some, [], ◌∷◌, ◌++◌, arith, nat_eq}
use xevos.Schema.Event.{EventId, Event, EventInput}
use xevos.Sql.{Sql}
use xevos.Sql.Rows.{by_key}
use xevos.Db.{Result, ok, EventRow}
use xevos.Bus.Store.{event_seq, event_row, append, enqueue}
use xevos.Bus.Core.{World, post, publish, envelope, broadcast}
use xevos.Bus.Durable.{Inv, post-Inv, top_seq_fresh, top_seq-append_one}

module _ ⦃sql : Sql⦄ where
  events-post :
      (w : World) (now : ℕ) (e : Event)
      → (sql.rows (post w now e).db.events ≡ sql.rows w.db.events)
        × ((post w now e).bus.seq ≡ w.bus.seq)
        × ((post w now e).bus.observers ≡ w.bus.observers)
  unfolding post enqueue
  events-post w now e = ground arith

  -- The world after the append, before delivery.
  abbrev logged_world : World → sql.Table EventRow → World
  logged_world w events = record {
    db = record w.db { events = events };
    bus = record w.bus { seq = suc w.bus.seq };
  }

  logged-Inv :
      (w : World) (events : sql.Table EventRow) (now : ℕ) (e : Event)
      → Inv w
      → sql.rows events ≡ sql.rows w.db.events ++ (event_row now (suc w.bus.seq) e ∷ [])
      → Inv (logged_world w events)
  logged-Inv w events now e v rows = record {
    durable = v.durable;
    ascending = v.ascending;
    logged = rw rows (
        top_seq-append_one (sql.rows w.db.events) _ (suc w.bus.seq) (omega (arith, v.logged))
          (omega arith));
    apart = v.apart;
    coherent = v.coherent;
    held = v.held;
  }

  broadcast-Inv : (w : World) (e : Event) → Inv w → Inv (record w { bus = broadcast w.bus e })
  broadcast-Inv w e v = record {
    durable = v.durable;
    ascending = v.ascending;
    logged = v.logged;
    apart = v.apart;
    coherent = v.coherent;
    held = v.held;
  }

  -- What a publish has done when it returned.
  pub record Published (w : World) (now : ℕ) (input : EventInput) (out : World × Result EventId)
      : Type 0 where
    pub returned : out.1 ≡ ok (suc w.bus.seq)
    pub counted : out.0.bus.seq ≡ suc w.bus.seq
    pub logged :
        sql.rows out.0.db.events
        ≡ sql.rows w.db.events
          ++ (event_row now (suc w.bus.seq) (envelope (suc w.bus.seq) input) ∷ [])
    pub inv : Inv out.0

  publish-eq :
      (w : World) (now : ℕ) (input : EventInput) (events : sql.Table EventRow)
      → Inv w
      → sql.insert
          (by_key event_seq (suc w.bus.seq))
          (event_row now (suc w.bus.seq) (envelope (suc w.bus.seq) input))
          w.db.events
        ≡ some events
      → let e = envelope (suc w.bus.seq) input in
        let w' = post (logged_world w events) now e in
        publish w now input ≡ (record w' { bus = broadcast w'.bus e }, ok (suc w.bus.seq))
  unfolding publish append
  publish-eq w now input events v inserted = ground arith

  -- On a durable bus in order, `publish` returns the next event id, appends exactly the event's row
  -- to the log, and leaves the bus in order.
  pub publish_lem :
      (w : World) (now : ℕ) (input : EventInput)
      → Inv w
      → Published w now input (publish w now input)
  publish_lem w now input v =
      let e = envelope (suc w.bus.seq) input in
      let fresh = top_seq_fresh (suc w.bus.seq) (sql.rows w.db.events) (omega (arith, v.logged)) in
      let (events, inserted, rows) =
        sql.insert_fresh (by_key event_seq (suc w.bus.seq)) (event_row now (suc w.bus.seq) e)
          w.db.events fresh in
      let w' = logged_world w events in
      let same = events-post w' now e in
      subst (Published w now input) (sym (publish-eq w now input events v inserted)) (record {
        returned = refl;
        counted = same.1;
        logged = same.0 ∙ rows;
        inv =
            broadcast-Inv (post w' now e) e (post-Inv w' now e (logged-Inv w events now e v rows));
      })
