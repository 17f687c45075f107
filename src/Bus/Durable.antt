-- ===== src/Bus/Durable.antt =====
-- The durable bus between two operations: every subscribed mailbox holds exactly what the inbox has
-- pending for it.
use xevos.Base.{
  ℕ, ◌≤◌, ◌<◌, ◌≡◌, ◌≢◌, refl, sym, ap, ◌∙◌, subst, true, false, some, List, [], ◌∷◌, ◌++◌, any,
  ◌==◌, nat_eq, if◌then◌else◌, arith, inl, inr, Option-cases, append-nil,
}
use xevos.Schema.Org.{EndpointId, endpoint_eq, EndpointId-discrete}
use xevos.Schema.Event.{Event}
use xevos.Sql.{Sql}
use xevos.Sql.Order.{Ascending, Ascending-append_one}
use xevos.Sql.Rows.{by_key}
use xevos.Db.{Database, InboxRow, EventRow}
use xevos.Bus.Fifo.{IsCoherent, outstanding, push-IsCoherent}
use xevos.Bus.Store.{event_seq, inbox_key, top_seq, inbox_row, enqueue}
use xevos.Bus.Pending.{slots_of, slots_of-append, row_slot}
use xevos.Bus.Deliver.{put_box-IsCoherent, outstanding-deliver_self, outstanding-deliver_ne}
use xevos.Bus.Core.{post_slot, World, MailboxRef, ref_of, deliver, post}

module _ ⦃sql : Sql⦄ where
  pub record Inv (w : World) : Type 0 where
    pub durable : w.bus.durable ≡ true
    pub ascending : Ascending inbox_key (sql.rows w.db.inbox)
    pub logged : top_seq (sql.rows w.db.events) ≤ w.bus.seq
    pub apart :
        (e f : EndpointId) (r : MailboxRef)
        → ref_of e w.bus.mailboxes ≡ some r
        → ref_of f w.bus.mailboxes ≡ some r
        → e ≡ f
    pub coherent : (r : MailboxRef) → IsCoherent (w.bus.boxes r)
    pub held :
        (e : EndpointId) (r : MailboxRef)
        → ref_of e w.bus.mailboxes ≡ some r
        → slots_of e (sql.rows w.db.inbox) ≡ outstanding (w.bus.boxes r)

  pub top_seq_fresh :
      (n : ℕ) (rows : List EventRow) → top_seq rows < n → any (by_key event_seq n) rows ≡ false
  top_seq_fresh n [] h = refl
  top_seq_fresh n (r ∷ rows) h = ground (arith, top_seq_fresh n rows)

  pub top_seq-append_one :
      (rows : List EventRow) (r : EventRow) (n : ℕ)
      → top_seq rows ≤ n
      → r.seq ≤ n
      → top_seq (rows ++ (r ∷ [])) ≤ n
  top_seq-append_one [] r n h k = omega arith
  top_seq-append_one (x ∷ rows) r n h k = omega (arith, top_seq-append_one rows r n (omega arith) k)

  -- The row that `enqueue` adds.
  enqueued : Database → ℕ → Event → InboxRow
  enqueued db now e = inbox_row now e.target e (enqueue db now e.target e).0

  inbox-enqueue :
      (db : Database) (now : ℕ) (e : Event)
      → sql.rows (enqueue db now e.target e).1.inbox ≡ sql.rows db.inbox ++ (enqueued db now e ∷ [])
  unfolding enqueue enqueued
  inbox-enqueue db now e = sql.insert_auto_rows inbox_key (inbox_row now e.target e) db.inbox

  enqueue-Ascending :
      (db : Database) (now : ℕ) (e : Event)
      → Ascending inbox_key (sql.rows db.inbox)
      → Ascending inbox_key (sql.rows (enqueue db now e.target e).1.inbox)
  unfolding enqueue enqueued
  enqueue-Ascending db now e h = rw (inbox-enqueue db now e) (
      Ascending-append_one inbox_key (sql.rows db.inbox) (enqueued db now e) h
        (sql.insert_auto_key inbox_key (inbox_row now e.target e) db.inbox))

  -- What a recipient has pending after the row is added.
  slots_of-enqueue :
      (db : Database) (now : ℕ) (e : Event) (f : EndpointId)
      → slots_of f (sql.rows (enqueue db now e.target e).1.inbox)
        ≡ slots_of f (sql.rows db.inbox)
          ++ (if e.target == f then row_slot (enqueued db now e) ∷ [] else [])
  unfolding enqueued
  slots_of-enqueue db now e f =
      ap (slots_of f) (inbox-enqueue db now e)
      ∙ slots_of-append f (sql.rows db.inbox) (enqueued db now e ∷ [])
      ∙ ap (◌++◌ (slots_of f (sql.rows db.inbox))) (ground arith)

  -- Posting to the target's mailbox keeps the invariant.
  post_slot-held :
      (w : World) (now : ℕ) (e : Event) (r : MailboxRef)
      → Inv w
      → ref_of e.target w.bus.mailboxes ≡ some r
      → (f : EndpointId) (q : MailboxRef) → ref_of f w.bus.mailboxes ≡ some q
      → slots_of f (sql.rows (post_slot true w now r e).db.inbox)
        ≡ outstanding ((post_slot true w now r e).bus.boxes q)
  unfolding enqueued enqueue
  post_slot-held w now e r v at_r f q at_q =
      let s = row_slot (enqueued w.db now e) in
      let added = slots_of-enqueue w.db now e f in
      elim (EndpointId-discrete e.target f) [
        | yes same ↦
            let here : r ≡ q = cc in
            subst
              (λ p.
                slots_of f (sql.rows (post_slot true w now r e).db.inbox)
                ≡ outstanding ((deliver w.bus r s).boxes p))
              here
              (ground (
                arith,
                added,
                v.held e.target r at_r,
                outstanding-deliver_self w.bus r s (v.coherent r),
              ))
        | no other ↦
            let apart : r ≢ q = λ p. other (v.apart e.target f q (at_r ∙ ap some p) at_q) in
            added
            ∙ ap (◌++◌ (slots_of f (sql.rows w.db.inbox))) (ground arith)
            ∙ append-nil (slots_of f (sql.rows w.db.inbox))
            ∙ v.held f q at_q
            ∙ sym (outstanding-deliver_ne w.bus r q s apart)
      ]

  post_slot-Inv :
      (w : World) (now : ℕ) (e : Event) (r : MailboxRef)
      → Inv w
      → ref_of e.target w.bus.mailboxes ≡ some r
      → Inv (post_slot true w now r e)
  unfolding enqueue
  post_slot-Inv w now e r v at_r = record {
    durable = v.durable;
    ascending = enqueue-Ascending w.db now e v.ascending;
    logged = v.logged;
    apart = v.apart;
    coherent = put_box-IsCoherent w.bus.boxes r _ v.coherent (
        push-IsCoherent (w.bus.boxes r)
          (record { event = e; inbox_id = some (enqueue w.db now e.target e).0 }) (v.coherent r));
    held = post_slot-held w now e r v at_r;
  }

  pub post-Inv : (w : World) (now : ℕ) (e : Event) → Inv w → Inv (post w now e)
  unfolding post
  post-Inv w now e v = elim (Option-cases (ref_of e.target w.bus.mailboxes)) [
    | inl absent ↦ rw (absent, post) v
    | inr (r, at_r) ↦
        rw (at_r, post)
          (subst (λ d. Inv (post_slot d w now r e)) (sym v.durable)
            (post_slot-Inv w now e r v at_r))
  ]
