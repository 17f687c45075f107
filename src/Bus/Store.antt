-- ===== src/Bus/Store.antt =====
-- core/event-bus/store.ts: the append-only `events` log and the per-recipient `inbox` queue.
use xevos.Base.{ℕ, max, Bool, true, false, none, some, List, [], ◌∷◌, keep, nat_eq}
use xevos.Schema.Org.{EndpointId}
use xevos.Schema.Event.{Event, constraint_violation}
use xevos.Sql.{Sql}
use xevos.Sql.Order.{order_by}
use xevos.Sql.Rows.{by_key}
use xevos.Db.{Database, Result, ok, err, EventRow, InboxRow, pending, consumed}

abbrev pub event_seq : EventRow → ℕ
event_seq r = r.seq

abbrev pub inbox_key : InboxRow → ℕ
inbox_key r = r.id

-- `max(seq)`, 0 on an empty table
abbrev pub top_seq : List EventRow → ℕ
top_seq [] = 0
top_seq (r ∷ rs) = max r.seq (top_seq rs)

abbrev pub is_pending : InboxRow → Bool
is_pending r = elim r.status [ pending ↦ true | consumed ↦ false ]

abbrev pub event_row : ℕ → ℕ → Event → EventRow
event_row now seq e = record {
  seq = seq;
  source = e.source;
  target = e.target;
  body = e.body;
  correlation_id = e.correlation_id;
  created_at = now;
}

abbrev pub inbox_row : ℕ → EndpointId → Event → ℕ → InboxRow
inbox_row now target e id = record {
  id = id;
  target = target;
  event = e;
  status = pending;
  created_at = now;
}

abbrev pub consume : InboxRow → InboxRow
consume r = record r { status = consumed }

module _ ⦃sql : Sql⦄ where
  -- `maxSeq`
  abbrev pub max_seq : Database → ℕ
  max_seq db = top_seq (sql.rows db.events)

  -- `append`; the insert throws if the sequence is taken
  unfoldable pub append : Database → ℕ → ℕ → Event → Result Database
  append db now seq e = elim (sql.insert (by_key event_seq seq) (event_row now seq e) db.events) [
    | none ↦ err constraint_violation
    | some events ↦ ok (record db { events = events })
  ]

  -- `enqueue`: the id of the new inbox row
  unfoldable pub enqueue : Database → ℕ → EndpointId → Event → ℕ × Database
  enqueue db now target e =
      let (id, inbox) = sql.insert_auto inbox_key (inbox_row now target e) db.inbox in
      (id, record db { inbox = inbox })

  -- `markConsumed`
  unfoldable pub mark_consumed : Database → ℕ → Database
  mark_consumed db id = record db { inbox = sql.update (by_key inbox_key id) consume db.inbox }

  -- `loadPending`, oldest first
  unfoldable pub load_pending : Database → List InboxRow
  load_pending db = order_by inbox_key (keep is_pending (sql.rows db.inbox))
