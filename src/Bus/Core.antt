-- ===== src/Bus/Core.antt =====
-- `EventBus` of core/event-bus/index.ts. Mailboxes are shared objects: the bus and the consumer hold
-- references into `boxes`. An observer is its identity, and its calls are recorded in `notified`; the
-- promises that a delivery resolves are recorded in `resolved`.
use xevos.Base.{
  ℕ, suc, ◌+◌, Bool, true, false, Option, none, some, List, [], ◌∷◌, ◌++◌, map, keep, any, not,
  length, ◌==◌, nat_eq, if◌then◌else◌,
}
use xevos.Schema.Org.{EndpointId, endpoint_eq}
use xevos.Schema.Event.{EventId, Event, EventInput}
use xevos.Sql.{Sql}
use xevos.Db.{Database, Result, ok, err, InboxRow}
use xevos.Bus.Mailbox.{Slot, Mailbox, empty_mailbox, push, Taken, acked, take_next}
use xevos.Bus.Store.{max_seq, append, enqueue, mark_consumed, load_pending}

abbrev pub MailboxRef : Type 0
MailboxRef = ℕ

pub record Bus : Type 0 where
  -- whether a store was given
  pub durable : Bool
  pub boxes : MailboxRef → Mailbox
  pub next_ref : MailboxRef
  pub mailboxes : List (EndpointId × MailboxRef)
  pub observers : List ℕ
  pub seq : ℕ
  pub notified : List (ℕ × Event)
  pub resolved : List (MailboxRef × Event)

-- The bus and the database that its store writes to.
pub record World ⦃sql : Sql⦄ : Type 0 where
  pub db : Database
  pub bus : Bus

abbrev pub ref_of : EndpointId → List (EndpointId × MailboxRef) → Option MailboxRef
ref_of e [] = none
ref_of e ((f, r) ∷ m) = if f == e then some r else ref_of e m

-- `mailboxes.set(id, mailbox)`
abbrev pub set_ref :
    EndpointId → MailboxRef → List (EndpointId × MailboxRef) → List (EndpointId × MailboxRef)
set_ref e r [] = (e, r) ∷ []
set_ref e r ((f, q) ∷ m) = if f == e then (f, r) ∷ m else (f, q) ∷ set_ref e r m

abbrev pub drop_ref : EndpointId → List (EndpointId × MailboxRef) → List (EndpointId × MailboxRef)
drop_ref e [] = []
drop_ref e ((f, q) ∷ m) = let rest = drop_ref e m in if f == e then rest else (f, q) ∷ rest

abbrev pub put_box : (MailboxRef → Mailbox) → MailboxRef → Mailbox → MailboxRef → Mailbox
put_box boxes r m q = if r == q then m else boxes q

abbrev pub resolutions : MailboxRef → Option Event → List (MailboxRef × Event)
resolutions r none = []
resolutions r (some e) = (r, e) ∷ []

-- `mailbox.push(event, inboxId)` on a shared mailbox
abbrev pub deliver : Bus → MailboxRef → Slot → Bus
deliver b r slot =
    let (m, woken) = push (b.boxes r) slot in
    record b { boxes = put_box b.boxes r m; resolved = b.resolved ++ resolutions r woken }

-- `subscribe`: the reference that the consumer holds, and the bus.
unfoldable pub subscribe : Bus → EndpointId → MailboxRef × Bus
subscribe b e = (
  b.next_ref,
  record b {
    boxes = put_box b.boxes b.next_ref empty_mailbox;
    next_ref = suc b.next_ref;
    mailboxes = set_ref e b.next_ref b.mailboxes;
  },
)

unfoldable pub unsubscribe : Bus → EndpointId → Bus
unsubscribe b e = record b { mailboxes = drop_ref e b.mailboxes }

-- `tap`: observers are a set; the disposer removes the observer.
unfoldable pub tap : Bus → ℕ → Bus
tap b o = record b {
  observers = if any (λ p. p == o) b.observers then b.observers else b.observers ++ (o ∷ []);
}

unfoldable pub dispose : Bus → ℕ → Bus
dispose b o = record b { observers = keep (λ p. not (p == o)) b.observers }

abbrev pub observer_count : Bus → ℕ
observer_count b = length b.observers

abbrev pub subscriber_count : Bus → ℕ
subscriber_count b = length b.mailboxes

abbrev pub has_subscriber : Bus → EndpointId → Bool
has_subscriber b e = elim (ref_of e b.mailboxes) [ none ↦ false | some _ ↦ true ]

-- `getMailbox`; `none` is the error "Mailbox not found"
abbrev pub get_mailbox : Bus → EndpointId → Option MailboxRef
get_mailbox b e = ref_of e b.mailboxes

abbrev pub envelope : EventId → EventInput → Event
envelope id e = record {
  id = id;
  source = e.source;
  target = e.target;
  correlation_id = e.correlation_id;
  body = e.body;
}

-- The observers run after delivery; what one throws is caught.
abbrev pub broadcast : Bus → Event → Bus
broadcast b e = record b { notified = b.notified ++ map (λ o. (o, e)) b.observers }

-- One turn of the loop of `recover`: whether a delivery was replayed, and the bus.
unfoldable pub replay_row : Bus → InboxRow → ℕ × Bus
replay_row b row = elim (ref_of row.target b.mailboxes) [
  | none ↦ (0, b)
  | some r ↦ (1, deliver b r (record { event = row.event; inbox_id = some row.id }))
]

unfoldable pub replay : Bus → List InboxRow → ℕ × Bus
replay b [] = (0, b)
replay b (row ∷ rows) =
    let (n, b') = replay_row b row in let (m, b'') = replay b' rows in (n + m, b'')

module _ ⦃sql : Sql⦄ where
  -- The constructor: ids go on after the highest one persisted.
  unfoldable pub open_bus : Bool → Database → Bus
  open_bus durable db = record {
    durable = durable;
    boxes = λ _. empty_mailbox;
    next_ref = 0;
    mailboxes = [];
    observers = [];
    seq = if durable then max_seq db else 0;
    notified = [];
    resolved = [];
  }

  -- `this.store?.append(this.seq, envelope)`
  abbrev pub log_event : Bool → Database → ℕ → ℕ → Event → Result Database
  log_event true db now seq e = append db now seq e
  log_event false db now seq e = ok db

  abbrev pub post_slot : Bool → World → ℕ → MailboxRef → Event → World
  post_slot true w now r e =
      let (id, db) = enqueue w.db now e.target e in
      record { db = db; bus = deliver w.bus r (record { event = e; inbox_id = some id }) }
  post_slot false w now r e = record w {
    bus = deliver w.bus r (record { event = e; inbox_id = none });
  }

  -- Point-to-point delivery, durably queued first.
  unfoldable pub post : World → ℕ → Event → World
  post w now e = elim (ref_of e.target w.bus.mailboxes) [
    | none ↦ w
    | some r ↦ post_slot w.bus.durable w now r e
  ]

  -- `publish`: a failed append throws, with the counter already advanced.
  unfoldable pub publish : World → ℕ → EventInput → World × Result EventId
  publish w now input =
      let seq = suc w.bus.seq in
      let e = envelope seq input in
      elim (log_event w.bus.durable w.db now seq e) [
        | err reason ↦ (record w { bus = record w.bus { seq = seq } }, err reason)
        | ok db ↦
            let w' = post (record { db = db; bus = record w.bus { seq = seq } }) now e in
            (record w' { bus = broadcast w'.bus e }, ok seq)
      ]

  -- `recover`: the number of deliveries replayed.
  unfoldable pub recover : World → ℕ × World
  recover w =
      if w.bus.durable
      then (let (n, b) = replay w.bus (load_pending w.db) in (n, record w { bus = b }))
      else (0, w)

  abbrev pub ack : Bool → Database → Option ℕ → Database
  ack true db (some id) = mark_consumed db id
  ack true db none = db
  ack false db _ = db

  -- `takeNext` on a mailbox of this bus: the acknowledgement reaches the store.
  unfoldable pub take : World → MailboxRef → Taken × World
  take w r =
      let m = w.bus.boxes r in
      let (taken, m') = take_next m in
      (
        taken,
        record {
          db = ack w.bus.durable w.db (acked m.in_flight);
          bus = record w.bus { boxes = put_box w.bus.boxes r m' };
        },
      )
