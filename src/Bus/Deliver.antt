-- ===== src/Bus/Deliver.antt =====
-- Writing one mailbox leaves the others; delivery adds the slot to the one it writes.
use xevos.Base.{◌≡◌, ◌≢◌, sym, ap, ◌∙◌, subst, [], ◌∷◌, ◌++◌, nat_eq, ℕ_discrete, arith}
use xevos.Bus.Mailbox.{Slot, Mailbox, push}
use xevos.Bus.Fifo.{IsCoherent, outstanding, outstanding-push}
use xevos.Bus.Core.{Bus, MailboxRef, deliver, put_box}

module _ (boxes : MailboxRef → Mailbox) (r : MailboxRef) (m : Mailbox) where
  pub put_box_self : put_box boxes r m r ≡ m
  put_box_self = ground arith

  pub put_box_ne : (q : MailboxRef) → r ≢ q → put_box boxes r m q ≡ boxes q
  put_box_ne q h = ground arith

  pub put_box-IsCoherent :
      ((p : MailboxRef) → IsCoherent (boxes p))
      → IsCoherent m
      → (q : MailboxRef) → IsCoherent (put_box boxes r m q)
  put_box-IsCoherent h k q = elim (ℕ_discrete r q) [
    | yes same ↦
        subst (λ p. IsCoherent (put_box boxes r m p)) same (subst IsCoherent (sym put_box_self) k)
    | no other ↦ subst IsCoherent (sym (put_box_ne q other)) (h q)
  ]

pub outstanding-deliver_self :
    (b : Bus) (r : MailboxRef) (s : Slot)
    → IsCoherent (b.boxes r)
    → outstanding ((deliver b r s).boxes r) ≡ outstanding (b.boxes r) ++ (s ∷ [])
outstanding-deliver_self b r s h =
    ap outstanding (put_box_self b.boxes r (push (b.boxes r) s).0)
    ∙ outstanding-push (b.boxes r) s h

pub outstanding-deliver_ne :
    (b : Bus) (r q : MailboxRef) (s : Slot)
    → r ≢ q
    → outstanding ((deliver b r s).boxes q) ≡ outstanding (b.boxes q)
outstanding-deliver_ne b r q s h = ap outstanding (put_box_ne b.boxes r (push (b.boxes r) s).0 q h)
