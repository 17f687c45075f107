-- ===== src/Bus/Recovery.antt =====
-- `recover` after a restart: every subscribed mailbox gets back what the inbox has pending for it.
use xevos.Base.{
  ◌≤◌, ◌≡◌, ◌≢◌, refl, sym, ap, ◌∙◌, subst, true, some, List, [], ◌∷◌, ◌++◌, arith, inl, inr,
  Option-cases, nat_eq, if◌then◌else◌, map, keep, append-nil, append_assoc,
}
use xevos.Schema.Org.{EndpointId, endpoint_eq, EndpointId-discrete}
use xevos.Sql.{Sql}
use xevos.Sql.Order.{Ascending, order_by-Ascending, keep-Ascending}
use xevos.Db.{Database, InboxRow}
use xevos.Bus.Fifo.{IsCoherent, outstanding, push-IsCoherent}
use xevos.Bus.Store.{inbox_key, is_pending, top_seq, load_pending}
use xevos.Bus.Pending.{row_slot, to_target, slots_of}
use xevos.Bus.Deliver.{put_box-IsCoherent, outstanding-deliver_self, outstanding-deliver_ne}
use xevos.Bus.Core.{Bus, World, MailboxRef, ref_of, deliver, replay_row, replay, recover}
use xevos.Bus.Durable.{Inv}

abbrev Apart : Bus → Type 0
Apart b =
    (e f : EndpointId) (r : MailboxRef)
    → ref_of e b.mailboxes ≡ some r
    → ref_of f b.mailboxes ≡ some r
    → e ≡ f

abbrev Coherent : Bus → Type 0
Coherent b = (r : MailboxRef) → IsCoherent (b.boxes r)

replay_row-kept :
    (b : Bus) (row : InboxRow)
    → ((replay_row b row).1.mailboxes ≡ b.mailboxes)
      × ((replay_row b row).1.durable ≡ b.durable)
      × ((replay_row b row).1.seq ≡ b.seq)
unfolding replay_row
replay_row-kept b row = ground arith

replay-kept :
    (b : Bus) (rows : List InboxRow)
    → ((replay b rows).1.mailboxes ≡ b.mailboxes)
      × ((replay b rows).1.durable ≡ b.durable)
      × ((replay b rows).1.seq ≡ b.seq)
unfolding replay
replay-kept b [] = (refl, refl, refl)
replay-kept b (row ∷ rows) =
    let here = replay_row-kept b row in
    let later = replay-kept (replay_row b row).1 rows in
    (later.0 ∙ here.0, later.1 ∙ here.1, later.2 ∙ here.2)

replay_row-Coherent : (b : Bus) (row : InboxRow) → Coherent b → Coherent (replay_row b row).1
unfolding replay_row
replay_row-Coherent b row h = elim (Option-cases (ref_of row.target b.mailboxes)) [
  | inl absent ↦ rw (absent, replay_row) h
  | inr (r, at_r) ↦
      rw (at_r, replay_row)
        (put_box-IsCoherent b.boxes r _ h (push-IsCoherent (b.boxes r) (row_slot row) (h r)))
]

replay-Coherent : (b : Bus) (rows : List InboxRow) → Coherent b → Coherent (replay b rows).1
unfolding replay
replay-Coherent b [] h = h
replay-Coherent b (row ∷ rows) h =
    replay-Coherent (replay_row b row).1 rows (replay_row-Coherent b row h)

not_added :
    (b : Bus) (row : InboxRow) (e : EndpointId) (r : MailboxRef)
    → row.target ≢ e
    → outstanding (b.boxes r) ++ (if to_target e row then row_slot row ∷ [] else [])
      ≡ outstanding (b.boxes r)
not_added b row e r h =
    ap (◌++◌ (outstanding (b.boxes r))) (ground arith) ∙ append-nil (outstanding (b.boxes r))

-- One row reaches the mailbox of its target and no other.
replay_row-outstanding :
    (b : Bus) (row : InboxRow) (e : EndpointId) (r : MailboxRef)
    → Coherent b
    → Apart b
    → ref_of e b.mailboxes ≡ some r
    → outstanding ((replay_row b row).1.boxes r)
      ≡ outstanding (b.boxes r) ++ (if to_target e row then row_slot row ∷ [] else [])
unfolding replay_row
replay_row-outstanding b row e r h apart at_r =
    elim (Option-cases (ref_of row.target b.mailboxes)) [
      | inl absent ↦ elim (EndpointId-discrete row.target e) [
        | yes same ↦ absurd (cc)
        | no other ↦ rw (absent, replay_row) (sym (not_added b row e r other))
      ]
      | inr (q, at_q) ↦ elim (EndpointId-discrete row.target e) [
        | yes same ↦
            let here : q ≡ r = cc in
            rw (at_q, replay_row)
              (subst
                (λ p.
                  outstanding ((deliver b q (row_slot row)).boxes p)
                  ≡ outstanding (b.boxes p) ++ (if to_target e row then row_slot row ∷ [] else []))
                here
                (outstanding-deliver_self b q (row_slot row) (h q)
                  ∙ ap (◌++◌ (outstanding (b.boxes q))) (ground arith)))
        | no other ↦
            let distinct : q ≢ r = λ p. other (apart row.target e r (at_q ∙ ap some p) at_r) in
            rw (at_q, replay_row)
              (outstanding-deliver_ne b q r (row_slot row) distinct
                ∙ sym (not_added b row e r other))
      ]
    ]

replay-outstanding :
    (b : Bus) (rows : List InboxRow) (e : EndpointId) (r : MailboxRef)
    → Coherent b
    → Apart b
    → ref_of e b.mailboxes ≡ some r
    → outstanding ((replay b rows).1.boxes r)
      ≡ outstanding (b.boxes r) ++ map row_slot (keep (to_target e) rows)
unfolding replay
replay-outstanding b [] e r h apart at_r = sym (append-nil (outstanding (b.boxes r)))
replay-outstanding b (row ∷ rows) e r h apart at_r =
    let b' = (replay_row b row).1 in
    let kept = (replay_row-kept b row).0 in
    let apart' : Apart b' =
      subst
        (λ m.
          (x y : EndpointId) (q : MailboxRef) → ref_of x m ≡ some q → ref_of y m ≡ some q → x ≡ y)
        (sym kept) apart in
    replay-outstanding b' rows e r (replay_row-Coherent b row h) apart' (ap (ref_of e) kept ∙ at_r)
    ∙ ap (λ l. l ++ map row_slot (keep (to_target e) rows))
        (replay_row-outstanding b row e r h apart at_r)
    ∙ append_assoc (outstanding (b.boxes r)) (if to_target e row then row_slot row ∷ [] else []) _
    ∙ ap (◌++◌ (outstanding (b.boxes r))) (ground arith)

module _ ⦃sql : Sql⦄ where
  -- A bus after a restart, its consumers subscribed and nothing delivered yet.
  pub record IsFresh (w : World) : Type 0 where
    pub durable : w.bus.durable ≡ true
    pub ascending : Ascending inbox_key (sql.rows w.db.inbox)
    pub logged : top_seq (sql.rows w.db.events) ≤ w.bus.seq
    pub apart : Apart w.bus
    pub coherent : Coherent w.bus
    pub unused :
        (e : EndpointId) (r : MailboxRef)
        → ref_of e w.bus.mailboxes ≡ some r
        → outstanding (w.bus.boxes r) ≡ []

  load_pending-eq :
      (db : Database)
      → Ascending inbox_key (sql.rows db.inbox)
      → load_pending db ≡ keep is_pending (sql.rows db.inbox)
  unfolding load_pending
  load_pending-eq db h =
      order_by-Ascending inbox_key (keep is_pending (sql.rows db.inbox))
        (keep-Ascending inbox_key is_pending (sql.rows db.inbox) h)

  recover-eq :
      (w : World)
      → w.bus.durable ≡ true
      → recover w ≡ (
        (replay w.bus (load_pending w.db)).0,
        record w { bus = (replay w.bus (load_pending w.db)).1 },
      )
  unfolding recover
  recover-eq w h = ground arith

  -- Recovery puts a restarted bus in order: every subscribed mailbox holds exactly the pending rows
  -- of its inbox, oldest first.
  pub recover-Inv : (w : World) → IsFresh w → Inv (recover w).1
  recover-Inv w v = rw (recover-eq w v.durable) (record {
    durable = (replay-kept w.bus (load_pending w.db)).1 ∙ v.durable;
    ascending = v.ascending;
    logged = rw ((replay-kept w.bus (load_pending w.db)).2) v.logged;
    apart = rw ((replay-kept w.bus (load_pending w.db)).0) v.apart;
    coherent = replay-Coherent w.bus (load_pending w.db) v.coherent;
    held = λ e r at_r.
        let at : ref_of e w.bus.mailboxes ≡ some r =
          ap (ref_of e) (sym (replay-kept w.bus (load_pending w.db)).0) ∙ at_r in
        sym (
          replay-outstanding w.bus (load_pending w.db) e r v.coherent v.apart at
          ∙ ap (λ l. l ++ map row_slot (keep (to_target e) (load_pending w.db))) (v.unused e r at)
          ∙ ap (λ l. map row_slot (keep (to_target e) l)) (load_pending-eq w.db v.ascending));
  })

  -- Nothing unacknowledged is lost in a crash: if the bus was in order before it, and a bus is opened
  -- on the same database in which `e` is subscribed again, then after `recover` the new mailbox of `e`
  -- holds exactly the slots that were outstanding, in the same order.
  pub recover_restores :
      (before after : World) (e : EndpointId) (r r' : MailboxRef)
      → Inv before
      → IsFresh after
      → sql.rows after.db.inbox ≡ sql.rows before.db.inbox
      → ref_of e before.bus.mailboxes ≡ some r
      → ref_of e after.bus.mailboxes ≡ some r'
      → outstanding ((recover after).1.bus.boxes r') ≡ outstanding (before.bus.boxes r)
  recover_restores before after e r r' v f same at_r at_r' =
      let db_kept : (recover after).1.db ≡ after.db =
        ap (λ x. x.1.db) (recover-eq after f.durable) in
      let refs_kept : (recover after).1.bus.mailboxes ≡ after.bus.mailboxes =
        ap (λ x. x.1.bus.mailboxes) (recover-eq after f.durable)
        ∙ (replay-kept after.bus (load_pending after.db)).0 in
      sym ((recover-Inv after f).held e r' (ap (ref_of e) refs_kept ∙ at_r'))
      ∙ ap (λ d. slots_of e (sql.rows d.inbox)) db_kept
      ∙ ap (slots_of e) same
      ∙ v.held e r at_r
