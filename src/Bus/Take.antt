-- ===== src/Bus/Take.antt =====
-- `takeNext` on a durable bus keeps the invariant: the acknowledged row is the one that the mailbox
-- no longer holds.
use xevos.Base.{
  ℕ, ◌≡◌, ◌≢◌, Bool, refl, sym, ap, ◌∙◌, subst, true, Option, none, some, List, [], ◌∷◌, ◌++◌,
  arith, map, ◌==◌, nat_eq, if◌then◌else◌,
}
use xevos.Schema.Org.{EndpointId, endpoint_eq, EndpointId-discrete}
use xevos.Sql.{Sql}
use xevos.Sql.Order.{Ascending, set_where-Ascending}
use xevos.Sql.Rows.{by_key}
use xevos.Db.{Database, InboxRow}
use xevos.Bus.Mailbox.{Slot, take_next, acked}
use xevos.Bus.Fifo.{slots, outstanding, take_next-IsCoherent, outstanding-take_next}
use xevos.Bus.Store.{inbox_key, mark_consumed, consume}
use xevos.Bus.Pending.{row_slot, slots_of, slots_of-consume}
use xevos.Bus.Deliver.{put_box-IsCoherent, put_box_self, put_box_ne}
use xevos.Bus.Core.{World, MailboxRef, ref_of, put_box, ack, take}
use xevos.Bus.Durable.{Inv}

-- Every slot that the inbox backs has a row id.
head_id :
    (rows : List InboxRow) (s : Slot) (rest : List Slot)
    → map row_slot rows ≡ s ∷ rest
    → (id : ℕ) × (s.inbox_id ≡ some id)
head_id [] s rest h = absurd (cc)
head_id (x ∷ rows) s rest h = (x.id, ground arith)

module _ ⦃sql : Sql⦄ where
  -- The inbox rows after the acknowledgement of what mailbox `r` had in flight.
  abbrev acked_rows : World → MailboxRef → List InboxRow
  acked_rows w r = sql.rows (ack true w.db (acked (w.bus.boxes r).in_flight)).inbox

  acked-held :
      (w : World) (e : EndpointId) (r : MailboxRef) (f : EndpointId)
      → Inv w
      → ref_of e w.bus.mailboxes ≡ some r
      → (o : Option Slot) → (w.bus.boxes r).in_flight ≡ o
      → slots_of f (sql.rows (ack true w.db (acked o)).inbox) ≡ (
          if e == f
          then outstanding (take_next (w.bus.boxes r)).1
          else slots_of f (sql.rows w.db.inbox))
  unfolding mark_consumed
  acked-held w e r f v at_r none q =
      ground (arith, v.held e r at_r, outstanding-take_next (w.bus.boxes r))
  acked-held w e r f v at_r (some s) q =
      let front : slots_of e (sql.rows w.db.inbox) ≡ s ∷ outstanding (take_next (w.bus.boxes r)).1 =
        v.held e r at_r
        ∙ sym (outstanding-take_next (w.bus.boxes r))
        ∙ ap (λ o. slots o ++ outstanding (take_next (w.bus.boxes r)).1) q in
      let (id, known) = head_id _ s _ front in
      subst
        (λ i. slots_of f (sql.rows (ack true w.db i).inbox) ≡ (
          if e == f
          then outstanding (take_next (w.bus.boxes r)).1
          else slots_of f (sql.rows w.db.inbox)))
        (sym known)
        (ap (slots_of f) (sql.rows-update (by_key inbox_key id) consume w.db.inbox)
          ∙ slots_of-consume e f id s _ (sql.rows w.db.inbox) v.ascending front known)

  abbrev taken_world : Bool → World → MailboxRef → World
  taken_world d w r = record {
    db = ack d w.db (acked (w.bus.boxes r).in_flight);
    bus = record w.bus { boxes = put_box w.bus.boxes r (take_next (w.bus.boxes r)).1 };
  }

  events-ack :
      (db : Database) (o : Option Slot)
      → sql.rows (ack true db (acked o)).events ≡ sql.rows db.events
  unfolding mark_consumed
  events-ack db o = ground arith

  ack-Ascending :
      (db : Database) (o : Option ℕ)
      → Ascending inbox_key (sql.rows db.inbox)
      → Ascending inbox_key (sql.rows (ack true db o).inbox)
  unfolding mark_consumed
  ack-Ascending db none h = h
  ack-Ascending db (some id) h =
      rw (sql.rows-update (by_key inbox_key id) consume db.inbox)
        (set_where-Ascending inbox_key id consume (sql.rows db.inbox) (λ r. refl) h)

  taken-held :
      (w : World) (e : EndpointId) (r : MailboxRef)
      → Inv w
      → ref_of e w.bus.mailboxes ≡ some r
      → (f : EndpointId) (q : MailboxRef) → ref_of f w.bus.mailboxes ≡ some q
      → slots_of f (acked_rows w r) ≡ outstanding ((taken_world true w r).bus.boxes q)
  taken-held w e r v at_r f q at_q =
      let m = (take_next (w.bus.boxes r)).1 in
      let a = acked-held w e r f v at_r (w.bus.boxes r).in_flight refl in
      elim (EndpointId-discrete e f) [
        | yes same ↦
            let here : r ≡ q = cc in
            subst (λ p. slots_of f (acked_rows w r) ≡ outstanding (put_box w.bus.boxes r m p)) here
              (a ∙ ground arith ∙ sym (ap outstanding (put_box_self w.bus.boxes r m)))
        | no other ↦
            let apart : r ≢ q = λ p. other (v.apart e f q (at_r ∙ ap some p) at_q) in
            a
            ∙ ground arith
            ∙ v.held f q at_q
            ∙ sym (ap outstanding (put_box_ne w.bus.boxes r m q apart))
      ]

  durable_take-Inv :
      (w : World) (e : EndpointId) (r : MailboxRef)
      → Inv w
      → ref_of e w.bus.mailboxes ≡ some r
      → Inv (taken_world true w r)
  durable_take-Inv w e r v at_r = record {
    durable = v.durable;
    ascending = ack-Ascending w.db (acked (w.bus.boxes r).in_flight) v.ascending;
    logged = rw (events-ack w.db (w.bus.boxes r).in_flight) v.logged;
    apart = v.apart;
    coherent =
        put_box-IsCoherent w.bus.boxes r _ v.coherent
          (take_next-IsCoherent (w.bus.boxes r) (v.coherent r));
    held = taken-held w e r v at_r;
  }

  -- A take on a subscribed mailbox keeps the bus in order.
  pub take-Inv :
      (w : World) (e : EndpointId) (r : MailboxRef)
      → Inv w
      → ref_of e w.bus.mailboxes ≡ some r
      → Inv (take w r).1
  unfolding take
  take-Inv w e r v at_r =
      subst (λ d. Inv (taken_world d w r)) (sym v.durable) (durable_take-Inv w e r v at_r)
