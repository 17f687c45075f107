-- ===== src/Bus/Fifo.antt =====
-- A mailbox is a first-in first-out queue with acknowledgement: nothing is lost, reordered or
-- acknowledged early, over any schedule of pushes and takes.
use xevos.Base.{
  ◌≡◌, refl, sym, ◌∙◌, ap, false, Option, none, some, List, [], ◌∷◌, ◌++◌, map, arith, append_assoc,
  append-nil, ◌⊎◌, inl,
}
use mathlib.Core.List.{map-append}
use xevos.Schema.Event.{Event}
use xevos.Bus.Mailbox.{
  Slot, Mailbox, empty_mailbox, push, take_next, Taken, got, parked, already_waiting,
}

-- A consumer waits only when nothing is queued and nothing is unacknowledged.
abbrev pub IsCoherent : Mailbox → Type 0
IsCoherent m = (m.waiting ≡ false) ⊎ ((m.queue ≡ []) × (m.in_flight ≡ none))

abbrev pub slots : Option Slot → List Slot
slots none = []
slots (some s) = s ∷ []

-- What was pushed and not yet acknowledged, oldest first.
abbrev pub outstanding : Mailbox → List Slot
outstanding m = slots m.in_flight ++ m.queue

pub push-IsCoherent : (m : Mailbox) (s : Slot) → IsCoherent m → IsCoherent (push m s).0
unfolding push
push-IsCoherent m s h = ground arith

pub take_next-IsCoherent : (m : Mailbox) → IsCoherent m → IsCoherent (take_next m).1
unfolding take_next
take_next-IsCoherent m h = ground arith

-- A push adds at the end.
pub outstanding-push :
    (m : Mailbox) (s : Slot) → IsCoherent m → outstanding (push m s).0 ≡ outstanding m ++ (s ∷ [])
unfolding push
outstanding-push m s h = ground (arith, append_assoc (slots m.in_flight) m.queue (s ∷ []))

-- A take removes exactly what was in flight.
pub outstanding-take_next :
    (m : Mailbox) → slots m.in_flight ++ outstanding (take_next m).1 ≡ outstanding m
unfolding take_next
outstanding-take_next m = ground (arith, append-nil (slots m.in_flight))

pub data Op : Type 0 where
  pushes : Slot → Op
  takes : Op

-- The mailbox after a schedule, with the slots acknowledged and the events handed out on the way.
pub record Run : Type 0 where
  pub box : Mailbox
  pub acked : List Slot
  pub handed : List Event

abbrev woken : Option Event → List Event
woken none = []
woken (some e) = e ∷ []

abbrev handed_by : Taken → List Event
handed_by (got e) = e ∷ []
handed_by parked = []
handed_by already_waiting = []

unfoldable pub step : Run → Op → Run
step r (pushes s) = let (m, e) = push r.box s in record r { box = m; handed = r.handed ++ woken e }
step r takes =
    let (t, m) = take_next r.box in
    record { box = m; acked = r.acked ++ slots r.box.in_flight; handed = r.handed ++ handed_by t }

unfoldable pub run : Run → List Op → Run
run r [] = r
run r (op ∷ ops) = run (step r op) ops

abbrev pub pushed : List Op → List Slot
pushed [] = []
pushed (pushes s ∷ ops) = s ∷ pushed ops
pushed (takes ∷ ops) = pushed ops

abbrev pub events : List Slot → List Event
events = map (λ s. s.event)

abbrev pub start : Run
start = record { box = empty_mailbox; acked = []; handed = [] }

-- What holds between two operations, when `ps` has been pushed so far.
pub record Inv (r : Run) (ps : List Slot) : Type 0 where
  pub coherent : IsCoherent r.box
  pub conserved : r.acked ++ outstanding r.box ≡ ps
  pub in_order : r.handed ≡ events (r.acked ++ slots r.box.in_flight)

-- The event that a push hands out is that of the slot it puts in flight.
woken-push :
    (m : Mailbox) (s : Slot)
    → IsCoherent m
    → events (slots (push m s).0.in_flight) ≡ events (slots m.in_flight) ++ woken (push m s).1
unfolding push
woken-push m s h = ground (arith, append-nil (events (slots m.in_flight)))

handed_by-take_next :
    (m : Mailbox) → events (slots (take_next m).1.in_flight) ≡ handed_by (take_next m).0
unfolding take_next
handed_by-take_next m = ground arith

start-Inv : Inv start []
start-Inv = record { coherent = inl refl; conserved = refl; in_order = refl }

push-Inv :
    (r : Run) (ps : List Slot) (s : Slot) → Inv r ps → Inv (step r (pushes s)) (ps ++ (s ∷ []))
unfolding step
push-Inv r ps s v = record {
  coherent = push-IsCoherent r.box s v.coherent;
  conserved = rw (outstanding-push r.box s v.coherent) (
      sym (append_assoc r.acked (outstanding r.box) (s ∷ []))
      ∙ ap (λ l. l ++ (s ∷ [])) v.conserved);
  in_order = simp (map-append, woken-push r.box s v.coherent, v.in_order, append_assoc);
}

take-Inv : (r : Run) (ps : List Slot) → Inv r ps → Inv (step r takes) ps
unfolding step
take-Inv r ps v = record {
  coherent = take_next-IsCoherent r.box v.coherent;
  conserved =
      append_assoc r.acked (slots r.box.in_flight) (outstanding (take_next r.box).1)
      ∙ ap (◌++◌ r.acked) (outstanding-take_next r.box)
      ∙ v.conserved;
  in_order = simp (map-append, handed_by-take_next, v.in_order);
}

run-Inv : (r : Run) (ps : List Slot) (ops : List Op) → Inv r ps → Inv (run r ops) (ps ++ pushed ops)
unfolding run
run-Inv r ps [] v = rw append-nil v
run-Inv r ps (pushes s ∷ ops) v =
    rw (← append_assoc ps (s ∷ []) (pushed ops))
      (run-Inv (step r (pushes s)) (ps ++ (s ∷ [])) ops (push-Inv r ps s v))
run-Inv r ps (takes ∷ ops) v = run-Inv (step r takes) ps ops (take-Inv r ps v)

-- Over any schedule of pushes and takes on a new mailbox: what was acknowledged, followed by what is
-- still outstanding, is what was pushed, in order; and the events handed out are those of the
-- acknowledged slots followed by the one in flight. So nothing is lost or reordered, each event is
-- handed out once, and a slot is acknowledged only after its event was handed out and the consumer
-- came back.
pub run_conserves :
    (ops : List Op)
    → let r = run start ops in
      (r.acked ++ outstanding r.box ≡ pushed ops)
      × (r.handed ≡ events (r.acked ++ slots r.box.in_flight))
run_conserves ops = let v = run-Inv start [] ops start-Inv in (v.conserved, v.in_order)
