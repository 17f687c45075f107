-- ===== src/Bus/Pending.antt =====
-- The inbox seen by recipient: the pending rows of a target as mailbox slots, and what a new row or
-- an acknowledgement does to them.
use mathlib.Core.List.{map-append}
use xevos.Base.{
  ℕ, ◌<◌, ◌≡◌, refl, ap, ◌∙◌, subst, Bool, some, List, [], ◌∷◌, ◌++◌, map, keep, keep-append, All,
  ◌==◌, nat_eq, if◌then◌else◌, arith, ℕ_discrete,
}
use xevos.Schema.Org.{EndpointId, endpoint_eq}
use xevos.Sql.Order.{Ascending}
use xevos.Sql.Rows.{set_where, set_where_hit, set_where_miss}
use xevos.Db.{InboxRow}
use xevos.Bus.Mailbox.{Slot}
use xevos.Bus.Store.{inbox_key, is_pending, consume}

abbrev pub row_slot : InboxRow → Slot
row_slot r = record { event = r.event; inbox_id = some r.id }

abbrev pub to_target : EndpointId → InboxRow → Bool
to_target e r = r.target == e

-- What the store holds for a recipient and has not seen acknowledged, oldest first.
abbrev pub slots_of : EndpointId → List InboxRow → List Slot
slots_of e rows = map row_slot (keep (to_target e) (keep is_pending rows))

pub slots_of-append :
    (e : EndpointId) (rows more : List InboxRow)
    → slots_of e (rows ++ more) ≡ slots_of e rows ++ slots_of e more
slots_of-append e rows more = simp (keep-append, map-append)

-- An update whose key is below every row's changes nothing.
set_where_below :
    (id : ℕ) (rows : List InboxRow)
    → All (λ r. id < r.id) rows
    → set_where inbox_key id consume rows ≡ rows
set_where_below id [] h = refl
set_where_below id (r ∷ rows) h = ground (arith, set_where_below id rows h.1)

slots_of_above :
    (e : EndpointId) (n id : ℕ) (s : Slot) (rest : List Slot) (rows : List InboxRow)
    → All (λ r. n < r.id) rows
    → slots_of e rows ≡ s ∷ rest
    → s.inbox_id ≡ some id
    → n < id
slots_of_above e n id s rest [] h q k = absurd (cc)
slots_of_above e n id s rest (r ∷ rows) h q k =
    ground (arith, slots_of_above e n id s rest rows h.1)

-- Acknowledging the oldest pending row of one recipient removes it there, and touches no other
-- recipient.
pub slots_of-consume :
    (e j : EndpointId) (id : ℕ) (s : Slot) (rest : List Slot) (rows : List InboxRow)
    → Ascending inbox_key rows
    → slots_of e rows ≡ s ∷ rest
    → s.inbox_id ≡ some id
    → slots_of j (set_where inbox_key id consume rows) ≡ (if e == j then rest else slots_of j rows)
slots_of-consume e j id s rest [] a q k = absurd (cc)
slots_of-consume e j id s rest (r ∷ rows) a q k = elim (ℕ_discrete r.id id) [
  | yes same ↦
      ap (slots_of j) (set_where_hit inbox_key id consume r rows same)
      ∙ ap (slots_of j) (
          ap (◌∷◌ (consume r))
            (set_where_below id rows (subst (λ n. All (λ x. n < x.id) rows) same a.0)))
      ∙ ground (arith, slots_of_above e r.id id s rest rows a.0)
  | no other ↦
      ap (slots_of j) (set_where_miss inbox_key id consume r rows other)
      ∙ ground (arith, slots_of-consume e j id s rest rows a.1)
]
