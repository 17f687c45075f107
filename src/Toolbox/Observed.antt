-- ===== src/Toolbox/Observed.antt =====
-- The observation that follows a direct tool: `observe` of tool/ztypes.ts and `getTools` of tool/service.ts.
use xevos.Base.{
  ℕ, suc, ◌≡◌, refl, sym, subst, Bool, true, false, none, [], ◌∷◌, ◌++◌, map, length, take, ltb,
  arith, Text, text, if◌then◌else◌,
}
use xevos.Schema.Org.{Agent, agent, service, observer_service}
use xevos.Schema.Event.{EventInput, tool_executed}
use xevos.Schema.Json.{Json}
use xevos.Sql.{Sql}
use xevos.Db.{Result, ok, err}
use xevos.Bus.Core.{World, ref_of, envelope, post, publish}
use xevos.Bus.Store.{event_row, append}
use xevos.Bus.Durable.{Inv}
use xevos.Bus.Publish.{publish_lem}
use xevos.Memory.Service.{Models}
use xevos.Memory.Recall.{Nearest}
use xevos.Agents.Service.{Org}
use xevos.Toolbox.Results.{Outcome, ToolResult, success, failure, clip_detail}
use xevos.Toolbox.Handlers.{ToolCall, name_of, rationale_of, is_direct, run}
use xevos.Toolbox.Service.{observation, observe, use_tool}

-- A text of more than 800 characters is cut after them, with an ellipsis.
abbrev pub shortened : Text → Text
shortened t = if ltb 800 (length t) then take 800 t ++ text "…" else t

module _ ⦃sql : Sql⦄ (near : Nearest) (models : Models) (json : Json)
    (of_outcome : Outcome → Text) where
  -- The audit trail's entry of a call: who made it, the tool and its rationale, whether it succeeded, and
  -- its result or its error.
  abbrev pub entry : Agent → ToolCall → Bool → Text → EventInput
  entry a call succeeded detail = record {
    source = agent a.id;
    target = service observer_service;
    correlation_id = none;
    body = tool_executed a.id (name_of call) (rationale_of call) succeeded (shortened detail);
  }

  abbrev pub entry_of : Agent → ToolCall → ToolResult → EventInput
  entry_of a call (success v) = entry a call true (of_outcome v)
  entry_of a call (failure t) = entry a call false t

  -- What a publish to an endpoint without a mailbox has done.
  pub record Shown (w : World) (now : ℕ) (input : EventInput) (w' : World) : Type 0 where
    pub logged :
        sql.rows w'.db.events
        ≡ sql.rows w.db.events
          ++ (event_row now (suc w.bus.seq) (envelope (suc w.bus.seq) input) ∷ [])
    pub tables : w'.db ≡ record w.db { events = w'.db.events }
    pub notified :
        w'.bus.notified
        ≡ w.bus.notified ++ map (λ o. (o, envelope (suc w.bus.seq) input)) w.bus.observers
    pub boxes : w'.bus.boxes ≡ w.bus.boxes
    pub inv : Inv w'

  publish-Shown :
      (w : World) (now : ℕ) (input : EventInput)
      → Inv w
      → ref_of input.target w.bus.mailboxes ≡ none
      → Shown w now input (publish w now input).0
  unfolding publish append post
  publish-Shown w now input v alone =
      let p = publish_lem w now input v in
      record {
        logged = p.logged;
        tables = ground (arith, p.returned, alone);
        notified = ground (arith, p.returned, alone);
        boxes = ground (arith, p.returned, alone);
        inv = p.inv;
      }

  -- What a call has left, by how its handler ended with `o'` and by whether the tool is direct.
  abbrev pub Observed :
      Org → ℕ → Agent → ToolCall → Result ToolResult → Bool → Result ToolResult × Org → Type 0
  Observed o' now a call (err x) direct out = out ≡ (err x, o')
  Observed o' now a call (ok r) false out = out ≡ (ok r, o')
  Observed o' now a call (ok r) true out =
      (out.0 ≡ ok r)
      × (out.1.launched ≡ o'.launched)
      × Shown o'.world now (entry_of a call r) out.1.world

  observation-entry :
      (a : Agent) (call : ToolCall) (r : ToolResult)
      → observation of_outcome a call r ≡ entry_of a call r
  unfolding observation clip_detail
  observation-entry a call (success v) = refl
  observation-entry a call (failure t) = refl

  observe-eq :
      (o : Org) (now : ℕ) (a : Agent) (call : ToolCall) (r : ToolResult)
      → Inv o.world
      → observe near models json of_outcome o now a call r
        ≡ (ok r, record o { world = (publish o.world now (entry_of a call r)).0 })
  unfolding observe
  observe-eq o now a call r v =
      let sent = (publish_lem o.world now (entry_of a call r) v).returned in
      ground (arith, observation-entry a call r, sent)

  direct-Observed :
      (o o' : Org) (now : ℕ) (a : Agent) (call : ToolCall) (r : ToolResult)
      → run near models json true o now a call ≡ (ok r, o')
      → is_direct call ≡ true
      → Inv o'.world
      → Shown o'.world now (entry_of a call r) (publish o'.world now (entry_of a call r)).0
      → Observed o' now a call (ok r) true (use_tool near models json of_outcome o now a call)
  unfolding use_tool
  direct-Observed o o' now a call r h d v s =
      subst (Observed o' now a call (ok r) true)
        (sym (ground (arith, h, d, observe-eq o' now a call r v))) (refl, refl, s)

  ended-Observed :
      (o o' : Org) (now : ℕ) (a : Agent) (call : ToolCall) (result : Result ToolResult)
      (direct : Bool)
      → run near models json true o now a call ≡ (result, o')
      → is_direct call ≡ direct
      → Inv o'.world
      → ref_of (service observer_service) o'.world.bus.mailboxes ≡ none
      → Observed o' now a call result direct (use_tool near models json of_outcome o now a call)
  unfolding use_tool
  ended-Observed o o' now a call (err x) direct h d v alone = ground (arith, h)
  ended-Observed o o' now a call (ok r) false h d v alone = ground (arith, h, d)
  ended-Observed o o' now a call (ok (success u)) true h d v alone =
      direct-Observed o o' now a call (success u) h d v
        (publish-Shown o'.world now (entry_of a call (success u)) v alone)
  ended-Observed o o' now a call (ok (failure t)) true h d v alone =
      direct-Observed o o' now a call (failure t) h d v
        (publish-Shown o'.world now (entry_of a call (failure t)) v alone)

  -- A call of a tool whose handler threw ends in the same exception, and a call of a tool that is not
  -- direct in the handler's result; both leave what the handler left. If the handler of a direct tool
  -- returned, on a durable bus in order on which nothing subscribes as the observer service, the call
  -- returns the same result, and one entry is logged and shown to every observer, which names the agent,
  -- the tool and its rationale, says whether it succeeded and has the first 800 characters of its result
  -- or error; every other table, the mailboxes and the launched agents are as the handler left them.
  pub use_tool-Observed :
      (o : Org) (now : ℕ) (a : Agent) (call : ToolCall)
      → Inv (run near models json true o now a call).1.world
      → ref_of
          (service observer_service)
          (run near models json true o now a call).1.world.bus.mailboxes
        ≡ none
      → Observed
          (run near models json true o now a call).1
          now
          a
          call
          (run near models json true o now a call).0
          (is_direct call)
          (use_tool near models json of_outcome o now a call)
  use_tool-Observed o now a call v alone =
      let ran = run near models json true o now a call in
      ended-Observed o ran.1 now a call ran.0 (is_direct call) refl refl v alone
