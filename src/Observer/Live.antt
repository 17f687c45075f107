-- ===== src/Observer/Live.antt =====
-- What connected clients are sent as it happens, against what they would load.
use xevos.Base.{
  ℕ, suc, ◌≡◌, ◌∙◌, ap, Bool-cases, List, [], ◌∷◌, ◌++◌, map, keep, keep-append, ◌==◌, nat_eq,
  arith, inl, inr, if◌then◌else◌,
}
use xevos.Schema.Event.{Event, EventInput}
use xevos.Sql.{Sql}
use xevos.Db.{Database, EventRow}
use xevos.Bus.Store.{event_row}
use xevos.Bus.Core.{World, envelope, publish}
use xevos.Bus.Durable.{Inv}
use xevos.Bus.Publish.{publish_lem}
use xevos.Observer.History.{map-append}
use xevos.Observer.Queries.{is_conversation, message_from_row, conversation}
use xevos.Observer.Server.{
  Frame, event_frame, message_frame, is_principal_message, message_from_event, Server, broadcast,
  observe,
}
use xevos.Web.Stream.{Message}

module _ {Prompts : Type 0} where
  -- The frames that one socket was sent.
  abbrev pub frames_to : ℕ → List (ℕ × Frame Prompts) → List (Frame Prompts)
  frames_to c sent = map (λ x. x.1) (keep (λ x. x.0 == c) sent)

  -- The messages among the frames of an event.
  abbrev pub live_messages : List (Frame Prompts) → List Message
  live_messages [] = []
  live_messages (message_frame m ∷ fs) = m ∷ live_messages fs
  live_messages (_ ∷ fs) = live_messages fs

  -- What every open socket is sent of an event.
  abbrev pub frames_of : ℕ → Event → List (Frame Prompts)
  frames_of now e =
      event_frame e.id e
      ∷ (if is_principal_message e then message_frame (message_from_event now e) ∷ [] else [])

  abbrev pub broadcast_all : Server Prompts → List (Frame Prompts) → Server Prompts
  broadcast_all s [] = s
  broadcast_all s (f ∷ fs) = broadcast_all (broadcast s f) fs

  observe-frames :
      (s : Server Prompts) (now : ℕ) (e : Event)
      → (observe s now e).sent ≡ (broadcast_all s (frames_of now e)).sent
  unfolding observe
  observe-frames s now e = ground arith

module _ ⦃sql : Sql⦄ where
  appended :
      (db db' : Database) (r : EventRow)
      → sql.rows db'.events ≡ sql.rows db.events ++ (r ∷ [])
      → conversation db' ≡ conversation db ++ keep is_conversation (r ∷ [])
  appended db db' r h =
      ap (keep is_conversation) h ∙ keep-append is_conversation (sql.rows db.events) (r ∷ [])

  one_message :
      (Prompts : Type 0) (now n : ℕ) (input : EventInput)
      → map message_from_row (keep is_conversation (event_row now n (envelope n input) ∷ []))
        ≡ live_messages (frames_of {Prompts = Prompts} now (envelope n input))
  one_message Prompts now n input = elim (Bool-cases (is_principal_message (envelope n input))) [
    | inl h ↦ ground (arith, h)
    | inr h ↦ ground (arith, h)
  ]

  -- What becomes of a message on both ways to the client.
  pub record Live {Prompts : Type 0} (s : Server Prompts) (w : World) (now : ℕ) (input : EventInput)
      : Type 0 where
    pub frames : List (Frame Prompts)
    pub sent : (observe s now (envelope (suc w.bus.seq) input)).sent ≡ (broadcast_all s frames).sent
    pub loaded :
        map message_from_row (conversation (publish w now input).0.db)
        ≡ map message_from_row (conversation w.db) ++ live_messages frames

  -- An event published on a durable bus in order adds to the conversation that is loaded exactly the
  -- messages among the frames that open sockets are sent of it.
  pub publish-Live :
      {Prompts : Type 0} (s : Server Prompts) (w : World) (now : ℕ) (input : EventInput)
      → Inv w
      → Live s w now input
  publish-Live s w now input v =
      let n = suc w.bus.seq in
      let row = event_row now n (envelope n input) in
      record {
        frames = frames_of now (envelope n input);
        sent = observe-frames s now (envelope n input);
        loaded =
            ap (map message_from_row)
              (appended w.db (publish w now input).0.db row (publish_lem w now input v).logged)
            ∙ (map-append message_from_row (conversation w.db) (keep is_conversation (row ∷ []))
                ∙ ap (λ t. map message_from_row (conversation w.db) ++ t)
                    (one_message _ now n input));
      }
