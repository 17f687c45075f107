-- ===== src/Bus/Lives.antt =====
-- The life of a durable bus in which endpoints also come and go: `launch` and `halt` of
-- core/services/agent.ts subscribe and unsubscribe agents while publishers and consumers go on.
use xevos.Base.{
  ℕ, ◌<◌, ◌≡◌, ◌≢◌, refl, sym, ap, ◌∙◌, none, some, List, [], ◌∷◌, inl, inr, arith, if◌then◌else◌,
  ◌==◌, Option-cases, nat_eq,
}
use xevos.Schema.Org.{EndpointId, endpoint_eq}
use xevos.Schema.Event.{Event, EventInput}
use xevos.Sql.{Sql}
use xevos.Sql.Order.{Ascending}
use xevos.Db.{Database, InboxRow}
use xevos.Bus.Mailbox.{empty_mailbox}
use xevos.Bus.Fifo.{outstanding}
use xevos.Bus.Store.{inbox_key, append, load_pending}
use xevos.Bus.Pending.{slots_of}
use xevos.Bus.Deliver.{put_box-IsCoherent, put_box_self, put_box_ne}
use xevos.Bus.Core.{
  Bus, World, MailboxRef, ref_of, drop_ref, put_box, replay_row, replay, recover, post, publish,
  take, subscribe, unsubscribe,
}
use xevos.Bus.Durable.{Inv}
use xevos.Bus.Startup.{boot, boot_bounded, subscribe_bounded}
use xevos.Bus.History.{Turn, publishes, takes, turn, turns, turn-Inv, history-Inv}

-- A publish or a take, or an endpoint that comes or goes.
pub data Change : Type 0 where
  moves : Turn → Change
  subscribes unsubscribes : EndpointId → Change

ref_of-drop_ref :
    (e f : EndpointId) (m : List (EndpointId × MailboxRef))
    → ref_of f (drop_ref e m) ≡ (if e == f then none else ref_of f m)
ref_of-drop_ref e f [] = ground arith
ref_of-drop_ref e f ((g, q) ∷ m) = ground (arith, ref_of-drop_ref e f m)

dropped :
    (e f : EndpointId) (r : MailboxRef) (m : List (EndpointId × MailboxRef))
    → ref_of f (drop_ref e m) ≡ some r
    → ref_of f m ≡ some r
dropped e f r m h = ground (arith, ref_of-drop_ref e f m)

replay_row-next_ref : (b : Bus) (row : InboxRow) → (replay_row b row).1.next_ref ≡ b.next_ref
unfolding replay_row
replay_row-next_ref b row = ground arith

replay_row-mailboxes : (b : Bus) (row : InboxRow) → (replay_row b row).1.mailboxes ≡ b.mailboxes
unfolding replay_row
replay_row-mailboxes b row = ground arith

replay-refs :
    (b : Bus) (rows : List InboxRow)
    → ((replay b rows).1.next_ref ≡ b.next_ref) × ((replay b rows).1.mailboxes ≡ b.mailboxes)
unfolding replay
replay-refs b [] = (refl, refl)
replay-refs b (row ∷ rows) =
    let later = replay-refs (replay_row b row).1 rows in
    (later.0 ∙ replay_row-next_ref b row, later.1 ∙ replay_row-mailboxes b row)

-- References of mailboxes are below the next one.
abbrev Bounded : Bus → Type 0
Bounded b = (e : EndpointId) (r : MailboxRef) → ref_of e b.mailboxes ≡ some r → r < b.next_ref

same_refs :
    (b b' : Bus) → b'.next_ref ≡ b.next_ref → b'.mailboxes ≡ b.mailboxes → Bounded b → Bounded b'
same_refs b b' hn hm v e r h = rw hn (v e r (ap (ref_of e) (sym hm) ∙ h))

subscribe-Bounded : (b : Bus) (e : EndpointId) → Bounded b → Bounded (subscribe b e).1
unfolding subscribe
subscribe-Bounded b e v f q h = ground (arith, subscribe_bounded b e f q h, v f q)

unsubscribe-Bounded : (b : Bus) (e : EndpointId) → Bounded b → Bounded (unsubscribe b e)
unfolding unsubscribe
unsubscribe-Bounded b e v f q h = v f q (dropped e f q b.mailboxes h)

module _ ⦃sql : Sql⦄ where
  unfoldable pub change : World → Change → World
  change w (moves t) = turn w t
  change w (subscribes e) = record w { bus = (subscribe w.bus e).1 }
  change w (unsubscribes e) = record w { bus = unsubscribe w.bus e }

  unfoldable pub changes : World → List Change → World
  changes w [] = w
  changes w (c ∷ cs) = changes (change w c) cs

  -- An endpoint that comes has nothing pending in the inbox.
  abbrev pub IsUnowed : World → Change → Type 0
  IsUnowed w (moves t) = Unit
  IsUnowed w (subscribes e) = slots_of e (sql.rows w.db.inbox) ≡ []
  IsUnowed w (unsubscribes e) = Unit

  abbrev pub AreUnowed : World → List Change → Type 0
  AreUnowed w [] = Unit
  AreUnowed w (c ∷ cs) = IsUnowed w c × AreUnowed (change w c) cs

  post-refs :
      (w : World) (now : ℕ) (e : Event)
      → ((post w now e).bus.next_ref ≡ w.bus.next_ref)
        × ((post w now e).bus.mailboxes ≡ w.bus.mailboxes)
  unfolding post
  post-refs w now e = (ground arith, ground arith)

  publish-refs :
      (w : World) (now : ℕ) (input : EventInput)
      → ((publish w now input).0.bus.next_ref ≡ w.bus.next_ref)
        × ((publish w now input).0.bus.mailboxes ≡ w.bus.mailboxes)
  unfolding publish append
  publish-refs w now input = (grind (arith, post-refs), grind (arith, post-refs))

  turn-Bounded : (w : World) (t : Turn) → Bounded w.bus → Bounded (turn w t).bus
  unfolding turn take
  turn-Bounded w (publishes now input) v =
      let same = publish-refs w now input in
      same_refs w.bus (publish w now input).0.bus same.0 same.1 v
  turn-Bounded w (takes e) v = elim (Option-cases (ref_of e w.bus.mailboxes)) [
    | inl absent ↦ rw (absent, turn) v
    | inr (r, at_r) ↦ rw (at_r, turn) (same_refs w.bus (take w r).1.bus refl refl v)
  ]

  recover-Bounded : (w : World) → Bounded w.bus → Bounded (recover w).1.bus
  unfolding recover
  recover-Bounded w v =
      let same = replay-refs w.bus (load_pending w.db) in
      same_refs w.bus (recover w).1.bus (ground (arith, same)) (ground (arith, same)) v

  subscribe-held :
      (w : World) (e f : EndpointId) (q : MailboxRef)
      → Inv w
      → Bounded w.bus
      → slots_of e (sql.rows w.db.inbox) ≡ []
      → ref_of f (subscribe w.bus e).1.mailboxes ≡ some q
      → slots_of f (sql.rows w.db.inbox) ≡ outstanding ((subscribe w.bus e).1.boxes q)
  unfolding subscribe
  subscribe-held w e f q v bounded none_due h = elim (subscribe_bounded w.bus e f q h) [
    | inl (same, new) ↦
        ap (λ g. slots_of g (sql.rows w.db.inbox)) (sym same)
        ∙ none_due
        ∙ sym (ap outstanding (put_box_self w.bus.boxes w.bus.next_ref empty_mailbox))
        ∙ ap (λ p. outstanding (put_box w.bus.boxes w.bus.next_ref empty_mailbox p)) (sym new)
    | inr (other, old) ↦
        let apart : w.bus.next_ref ≢ q = λ p. omega (arith, p, bounded f q old) in
        v.held f q old
        ∙ sym (ap outstanding (put_box_ne w.bus.boxes w.bus.next_ref empty_mailbox q apart))
  ]

  subscribe-Inv :
      (w : World) (e : EndpointId)
      → Inv w
      → Bounded w.bus
      → slots_of e (sql.rows w.db.inbox) ≡ []
      → Inv (record w { bus = (subscribe w.bus e).1 })
  unfolding subscribe
  subscribe-Inv w e v bounded none_due = record {
    durable = v.durable;
    ascending = v.ascending;
    logged = v.logged;
    apart = λ f g q h k. ground (
      arith,
      subscribe_bounded w.bus e f q h,
      subscribe_bounded w.bus e g q k,
      bounded f q,
      bounded g q,
      v.apart f g q,
    );
    coherent = put_box-IsCoherent w.bus.boxes w.bus.next_ref empty_mailbox v.coherent (inl refl);
    held = λ f q h. subscribe-held w e f q v bounded none_due h;
  }

  unsubscribe-Inv :
      (w : World) (e : EndpointId) → Inv w → Inv (record w { bus = unsubscribe w.bus e })
  unfolding unsubscribe
  unsubscribe-Inv w e v = record {
    durable = v.durable;
    ascending = v.ascending;
    logged = v.logged;
    apart = λ f g q h k.
        v.apart f g q (dropped e f q w.bus.mailboxes h) (dropped e g q w.bus.mailboxes k);
    coherent = v.coherent;
    held = λ f q h. v.held f q (dropped e f q w.bus.mailboxes h);
  }

  changes-kept :
      (w : World) (cs : List Change) → AreUnowed w cs → Inv w → Bounded w.bus → Inv (changes w cs)
  unfolding changes change
  changes-kept w [] free v b = v
  changes-kept w (moves t ∷ cs) free v b =
      changes-kept (turn w t) cs free.1 (turn-Inv w t v) (turn-Bounded w t b)
  changes-kept w (subscribes e ∷ cs) free v b =
      changes-kept (record w { bus = (subscribe w.bus e).1 }) cs free.1
        (subscribe-Inv w e v b free.0) (subscribe-Bounded w.bus e b)
  changes-kept w (unsubscribes e ∷ cs) free v b =
      changes-kept (record w { bus = unsubscribe w.bus e }) cs free.1 (unsubscribe-Inv w e v)
        (unsubscribe-Bounded w.bus e b)

  -- After a start on any database whose inbox keys ascend, and any interleaving of publishes, takes,
  -- subscriptions of endpoints that have nothing pending at that time, and unsubscriptions, the bus is
  -- in order: among the rest, every subscribed mailbox has outstanding exactly what the inbox has
  -- pending for its endpoint, in order, and no two endpoints share a mailbox.
  pub changes-Inv :
      (db : Database) (es : List EndpointId) (cs : List Change)
      → Ascending inbox_key (sql.rows db.inbox)
      → AreUnowed (recover (boot db es)).1 cs
      → Inv (changes (recover (boot db es)).1 cs)
  unfolding turns
  changes-Inv db es cs h free =
      changes-kept (recover (boot db es)).1 cs free (history-Inv db es [] h)
        (recover-Bounded (boot db es) (boot_bounded db es))
