-- ===== src/Bus/Mailbox.antt =====
-- `Mailbox` of core/event-bus/index.ts. A consumer that awaits `takeNext` on an empty queue is the
-- flag `waiting`; the event that resolves its promise is what `push` returns.
use xevos.Base.{ℕ, Bool, true, false, Option, none, some, List, [], ◌∷◌, ◌++◌, length}
use xevos.Schema.Event.{Event}

pub record Slot : Type 0 where
  pub event : Event
  pub inbox_id : Option ℕ

pub record Mailbox : Type 0 where
  pub queue : List Slot
  pub waiting : Bool
  pub in_flight : Option Slot

abbrev pub empty_mailbox : Mailbox
empty_mailbox = record { queue = []; waiting = false; in_flight = none }

abbrev pub push_slot : Bool → Mailbox → Slot → Mailbox × Option Event
push_slot true m slot = (record m { waiting = false; in_flight = some slot }, some slot.event)
push_slot false m slot = (record m { queue = m.queue ++ (slot ∷ []) }, none)

unfoldable pub push : Mailbox → Slot → Mailbox × Option Event
push m slot = push_slot m.waiting m slot

pub data Taken : Type 0 where
  got : Event → Taken
  parked : Taken
  -- `throw new Error("Mailbox already has a pending consumer")`
  already_waiting : Taken

-- `ackInFlight`: the inbox row to mark consumed, if there is one.
abbrev pub acked : Option Slot → Option ℕ
acked none = none
acked (some slot) = slot.inbox_id

abbrev take_from : List Slot → Mailbox → Taken × Mailbox
take_from (slot ∷ rest) m = (got slot.event, record m { queue = rest; in_flight = some slot })
take_from [] m = elim m.waiting [
  | true ↦ (already_waiting, record m { in_flight = none })
  | false ↦ (parked, record m { waiting = true; in_flight = none })
]

-- `takeNext`: what the consumer gets, and the mailbox after it. The acknowledgement of the previous
-- delivery, `acked m.in_flight`, comes first.
unfoldable pub take_next : Mailbox → Taken × Mailbox
take_next m = take_from m.queue m

-- `size`
abbrev pub size : Mailbox → ℕ
size m = length m.queue
