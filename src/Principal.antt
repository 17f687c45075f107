-- ===== src/Principal.antt =====
-- `Principal` of packages/core/src/core/principal/index.ts: the human's end of the bus.
mod Tests
use xevos.Base.{ℕ, suc, ◌≡◌, refl, none, List, [], ◌∷◌, ◌++◌, map, Text, arith}
use xevos.Schema.Org.{AgentId, agent, principal}
use xevos.Schema.Event.{EventId, EventInput, message}
use xevos.Sql.{Sql}
use xevos.Db.{Result}
use xevos.Bus.Store.{event_row, append}
use xevos.Bus.Core.{World, ref_of, envelope, post, publish}
use xevos.Bus.Durable.{Inv}
use xevos.Bus.Publish.{publish_lem}

abbrev pub directive : AgentId → Text → EventInput
directive executive_id content = record {
  source = principal;
  target = agent executive_id;
  correlation_id = none;
  body = message content;
}

abbrev pub reply : AgentId → Text → EventInput
reply from content = record {
  source = agent from;
  target = principal;
  correlation_id = none;
  body = message content;
}

module _ ⦃sql : Sql⦄ where
  -- `send`
  unfoldable pub send : World → ℕ → AgentId → Text → World × Result EventId
  send w now executive_id content = publish w now (directive executive_id content)

  -- `receive`
  unfoldable pub receive : World → ℕ → AgentId → Text → World
  receive w now from content = (publish w now (reply from content)).0

  -- What a reply to the principal has done.
  pub record Shown (w : World) (now : ℕ) (from : AgentId) (content : Text) (w' : World)
      : Type 0 where
    pub logged :
        sql.rows w'.db.events
        ≡ sql.rows w.db.events
          ++ (event_row now (suc w.bus.seq) (envelope (suc w.bus.seq) (reply from content)) ∷ [])
    pub notified :
        w'.bus.notified
        ≡ w.bus.notified
          ++ map (λ o. (o, envelope (suc w.bus.seq) (reply from content))) w.bus.observers
    pub boxes : w'.bus.boxes ≡ w.bus.boxes
    pub inbox : w'.db.inbox ≡ w.db.inbox
    pub inv : Inv w'

  -- On a durable bus in order on which nothing subscribes as the principal, a reply to it is logged and
  -- shown to every observer, and queued for nobody.
  pub receive_lem :
      (w : World) (now : ℕ) (from : AgentId) (content : Text)
      → Inv w
      → ref_of principal w.bus.mailboxes ≡ none
      → Shown w now from content (receive w now from content)
  unfolding receive publish append post
  receive_lem w now from content v alone =
      let p = publish_lem w now (reply from content) v in
      record {
        logged = p.logged;
        notified = ground (arith, p.returned, alone);
        boxes = ground (arith, p.returned, alone);
        inbox = ground (arith, p.returned, alone);
        inv = p.inv;
      }
