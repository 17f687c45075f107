-- ===== src/Bus/History.antt =====
-- Any interleaving of publishers and consumers, and a crash at any point of it.
use xevos.Base.{◌≡◌, refl, ℕ, none, some, List, [], ◌∷◌, inl, inr, Option-cases}
use xevos.Schema.Org.{EndpointId}
use xevos.Schema.Event.{EventInput}
use xevos.Sql.{Sql}
use xevos.Sql.Order.{Ascending}
use xevos.Db.{Database}
use xevos.Bus.Fifo.{outstanding}
use xevos.Bus.Store.{inbox_key}
use xevos.Bus.Core.{World, MailboxRef, ref_of, publish, take, recover}
use xevos.Bus.Durable.{Inv}
use xevos.Bus.Publish.{publish_lem}
use xevos.Bus.Take.{take-Inv}
use xevos.Bus.Recovery.{recover-Inv, recover_restores}
use xevos.Bus.Startup.{boot, boot-IsFresh}

-- One turn of the event loop that touches the bus: a publish at a time, or the consumer of an
-- endpoint calling `takeNext`.
pub data Turn : Type 0 where
  publishes : ℕ → EventInput → Turn
  takes : EndpointId → Turn

module _ ⦃sql : Sql⦄ where
  unfoldable pub turn : World → Turn → World
  turn w (publishes now input) = (publish w now input).0
  turn w (takes e) = elim (ref_of e w.bus.mailboxes) [ none ↦ w | some r ↦ (take w r).1 ]

  unfoldable pub turns : World → List Turn → World
  turns w [] = w
  turns w (t ∷ ts) = turns (turn w t) ts

  pub turn-Inv : (w : World) (t : Turn) → Inv w → Inv (turn w t)
  unfolding turn
  turn-Inv w (publishes now input) v = (publish_lem w now input v).inv
  turn-Inv w (takes e) v = elim (Option-cases (ref_of e w.bus.mailboxes)) [
    | inl absent ↦ rw (absent, turn) v
    | inr (r, at_r) ↦ rw (at_r, turn) (take-Inv w e r v at_r)
  ]

  turns-Inv : (w : World) (ts : List Turn) → Inv w → Inv (turns w ts)
  unfolding turns
  turns-Inv w [] v = v
  turns-Inv w (t ∷ ts) v = turns-Inv (turn w t) ts (turn-Inv w t v)

  -- After a start on any database whose inbox keys ascend, and any interleaving of publishes and
  -- takes, every subscribed mailbox holds exactly what the inbox has pending for it.
  pub history-Inv :
      (db : Database) (es : List EndpointId) (ts : List Turn)
      → Ascending inbox_key (sql.rows db.inbox)
      → Inv (turns (recover (boot db es)).1 ts)
  history-Inv db es ts h = turns-Inv _ ts (recover-Inv (boot db es) (boot-IsFresh db es h))

  -- At-least-once delivery across a crash. Start a bus on a database whose inbox keys ascend, let
  -- publishers and consumers take any turns, then stop at that point and start again on the same
  -- database: for every endpoint subscribed in both lives, `recover` puts into its new mailbox exactly
  -- the slots that its old mailbox had queued or in flight unacknowledged, in the same order.
  pub crash_restores :
      (db : Database) (es es' : List EndpointId) (ts : List Turn) (e : EndpointId)
      (r r' : MailboxRef)
      → Ascending inbox_key (sql.rows db.inbox)
      → ref_of e (turns (recover (boot db es)).1 ts).bus.mailboxes ≡ some r
      → ref_of e (boot (turns (recover (boot db es)).1 ts).db es').bus.mailboxes ≡ some r'
      → outstanding ((recover (boot (turns (recover (boot db es)).1 ts).db es')).1.bus.boxes r')
        ≡ outstanding ((turns (recover (boot db es)).1 ts).bus.boxes r)
  unfolding boot
  crash_restores db es es' ts e r r' h at_r at_r' =
      let w = turns (recover (boot db es)).1 ts in
      let v = history-Inv db es ts h in
      recover_restores w (boot w.db es') e r r' v (boot-IsFresh w.db es' v.ascending) refl at_r
        at_r'
