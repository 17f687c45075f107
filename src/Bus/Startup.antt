-- ===== src/Bus/Startup.antt =====
-- Opening the bus and subscribing the consumers, as `main` of packages/core/src/index.ts and the
-- service constructors do before `recover`.
use xevos.Base.{
  ◌<◌, ◌≡◌, ◌≢◌, refl, sym, ap, ◌∙◌, true, some, List, [], ◌∷◌, arith, inl, ◌==◌, ◌⊎◌, nat_eq,
  ℕ_discrete, if◌then◌else◌,
}
use xevos.Schema.Org.{EndpointId, endpoint_eq}
use xevos.Sql.{Sql}
use xevos.Sql.Order.{Ascending}
use xevos.Db.{Database}
use xevos.Bus.Mailbox.{empty_mailbox}
use xevos.Bus.Fifo.{IsCoherent, outstanding}
use xevos.Bus.Store.{inbox_key, max_seq}
use xevos.Bus.Deliver.{put_box-IsCoherent, put_box_self, put_box_ne}
use xevos.Bus.Core.{Bus, World, MailboxRef, ref_of, set_ref, put_box, open_bus, subscribe}
use xevos.Bus.Recovery.{IsFresh}

-- Nothing delivered, and no two endpoints share a mailbox.
pub record IsReady (b : Bus) : Type 0 where
  pub bounded : (e : EndpointId) (r : MailboxRef) → ref_of e b.mailboxes ≡ some r → r < b.next_ref
  pub apart :
      (e f : EndpointId) (r : MailboxRef)
      → ref_of e b.mailboxes ≡ some r
      → ref_of f b.mailboxes ≡ some r
      → e ≡ f
  pub coherent : (r : MailboxRef) → IsCoherent (b.boxes r)
  pub unused : (r : MailboxRef) → outstanding (b.boxes r) ≡ []

pub ref_of-set_ref :
    (e f : EndpointId) (r : MailboxRef) (m : List (EndpointId × MailboxRef))
    → ref_of f (set_ref e r m) ≡ (if e == f then some r else ref_of f m)
ref_of-set_ref e f r [] = ground arith
ref_of-set_ref e f r ((g, q) ∷ m) = ground (arith, ref_of-set_ref e f r m)

pub subscribe_bounded :
    (b : Bus) (e f : EndpointId) (q : MailboxRef)
    → ref_of f (set_ref e b.next_ref b.mailboxes) ≡ some q
    → ((e ≡ f) × (q ≡ b.next_ref)) ⊎ ((e ≢ f) × (ref_of f b.mailboxes ≡ some q))
subscribe_bounded b e f q h = ground (arith, ref_of-set_ref e f b.next_ref b.mailboxes)

subscribe-IsReady : (b : Bus) (e : EndpointId) → IsReady b → IsReady (subscribe b e).1
unfolding subscribe
subscribe-IsReady b e v = record {
  bounded = λ f q h. ground (arith, subscribe_bounded b e f q h, v.bounded f q);
  apart = λ f g q h k. ground (
    arith,
    subscribe_bounded b e f q h,
    subscribe_bounded b e g q k,
    v.bounded f q,
    v.bounded g q,
    v.apart f g q,
  );
  coherent = put_box-IsCoherent b.boxes b.next_ref empty_mailbox v.coherent (inl refl);
  unused = λ q. elim (ℕ_discrete b.next_ref q) [
    | yes same ↦
        ap (λ p. outstanding (put_box b.boxes b.next_ref empty_mailbox p)) (sym same)
        ∙ ap outstanding (put_box_self b.boxes b.next_ref empty_mailbox)
    | no other ↦ ap outstanding (put_box_ne b.boxes b.next_ref empty_mailbox q other) ∙ v.unused q
  ];
}

-- The subscriptions of the services' and agents' constructors, in order.
unfoldable pub subscribe_all : Bus → List EndpointId → Bus
subscribe_all b [] = b
subscribe_all b (e ∷ es) = subscribe_all (subscribe b e).1 es

subscribe_all-IsReady : (b : Bus) (es : List EndpointId) → IsReady b → IsReady (subscribe_all b es)
unfolding subscribe_all
subscribe_all-IsReady b [] v = v
subscribe_all-IsReady b (e ∷ es) v =
    subscribe_all-IsReady (subscribe b e).1 es (subscribe-IsReady b e v)

subscribe_all_kept :
    (b : Bus) (es : List EndpointId)
    → ((subscribe_all b es).durable ≡ b.durable) × ((subscribe_all b es).seq ≡ b.seq)
unfolding subscribe_all subscribe
subscribe_all_kept b [] = (refl, refl)
subscribe_all_kept b (e ∷ es) = subscribe_all_kept (subscribe b e).1 es

module _ ⦃sql : Sql⦄ where
  open_bus-IsReady : (db : Database) → IsReady (open_bus true db)
  unfolding open_bus
  open_bus-IsReady db = record {
    bounded = λ e r h. absurd (cc);
    apart = λ e f r h k. absurd (cc);
    coherent = λ r. inl refl;
    unused = λ r. refl;
  }

  open_bus_starts :
      (db : Database) → ((open_bus true db).durable ≡ true) × ((open_bus true db).seq ≡ max_seq db)
  unfolding open_bus
  open_bus_starts db = (refl, refl)

  -- The world of a process that has opened the bus on a database and subscribed its consumers.
  unfoldable pub boot : Database → List EndpointId → World
  boot db es = record { db = db; bus = subscribe_all (open_bus true db) es }

  -- A restarted process meets what `recover` relies on, whatever the database holds, if its inbox keys
  -- ascend.
  pub boot-IsFresh :
      (db : Database) (es : List EndpointId)
      → Ascending inbox_key (sql.rows db.inbox)
      → IsFresh (boot db es)
  unfolding boot
  boot-IsFresh db es h =
      let b = open_bus true db in
      let v = subscribe_all-IsReady b es (open_bus-IsReady db) in
      let kept = subscribe_all_kept b es in
      let starts = open_bus_starts db in
      record {
        durable = kept.0 ∙ starts.0;
        ascending = h;
        logged = omega (arith, kept.1, starts.1);
        apart = v.apart;
        coherent = v.coherent;
        unused = λ e r _. v.unused r;
      }

  pub boot_bounded :
      (db : Database) (es : List EndpointId) (e : EndpointId) (r : MailboxRef)
      → ref_of e (boot db es).bus.mailboxes ≡ some r
      → r < (boot db es).bus.next_ref
  unfolding boot
  boot_bounded db es = (subscribe_all-IsReady (open_bus true db) es (open_bus-IsReady db)).bounded
