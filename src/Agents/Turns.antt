-- ===== src/Agents/Turns.antt =====
-- A turn of an agent, `run` and `handle` of core/agents/index.ts: what is left of an event that it took.
use xevos.Base.{ℕ, suc, ◌≡◌, Bool, true, false, Option, none, List, [], ◌∷◌, ◌++◌, Text}
use xevos.Schema.Org.{agent, Agent, agent_id_eq, agent_status_eq, endpoint_of}
use xevos.Schema.Event.{Event, EventInput, Reason, external_error, escalation_request}
use xevos.Schema.Json.{Json}
use xevos.Schema.Memory.{ModelMessage}
use xevos.Sql.{Sql}
use xevos.Db.{Result, ok, err}
use xevos.Bus.Core.{envelope}
use xevos.Bus.Store.{event_row}
use xevos.Memory.Repository.{messages_of, get_memory}
use xevos.Memory.Service.{Models}
use xevos.Memory.Recall.{Nearest}
use xevos.Agents.Service.{Org}
use xevos.Agents.Loop.{Generate, error_text, prepare_message, prompt_for, think}
use xevos.Toolbox.Results.{Outcome}

module _ ⦃sql : Sql⦄ (near : Nearest) (models : Models) (json : Json) (of_outcome : Outcome → Text)
    (generate : Generate) where
  -- What `onError` publishes.
  abbrev pub alarm : Agent → Event → Reason → EventInput
  alarm a e r = record {
    source = agent a.id;
    target = endpoint_of a.reports_to;
    correlation_id = none;
    body = escalation_request (error_text json e r) none;
  }

  -- The log after an escalation of that error of the agent on that event, to the one it reports to.
  abbrev pub Escalated : Org → ℕ → Agent → Event → Reason → Org → Type 0
  Escalated o now a e r out =
      sql.rows out.world.db.events
      ≡ sql.rows o.world.db.events
        ++ (event_row now (suc o.world.bus.seq) (envelope (suc o.world.bus.seq) (alarm a e r)) ∷ [])

  -- The memory after a turn: the event as a message, and what the model answered.
  abbrev pub Recorded : Org → Org → Agent → Event → List ModelMessage → Org → Type 0
  Recorded before o a e replies out =
      messages_of (get_memory out.world.db a.id)
      ≡ messages_of (get_memory o.world.db a.id)
        ++ (prepare_message near models json of_outcome generate before.world.db e ∷ replies)

  -- What is left when the model has ended, given the organization `o'` after its tool calls.
  abbrev pub Replied : Org → Org → ℕ → Agent → Event → Result (List ModelMessage) → Org → Type 0
  Replied o o' now a e (err r) out = Escalated o' now a e r out
  Replied o o' now a e (ok replies) out = Recorded o o' a e replies out

  -- What a turn has left, by whether the sandbox is ready and by the prompt.
  abbrev pub Ended : Org → ℕ → Agent → Event → Bool → Result Text → Org → Type 0
  Ended o now a e false prompt out = Escalated o now a e external_error out
  Ended o now a e true (err r) out = Escalated o now a e r out
  Ended o now a e true (ok prompt) out =
      Replied o (think near models json of_outcome generate o a e prompt).0 now a e
        (think near models json of_outcome generate o a e prompt).1 out

  -- The organization after the tool calls of a turn whose prompt was built, or was not.
  abbrev pub called : Org → Agent → Event → Result Text → Org
  called o a e (err r) = o
  called o a e (ok prompt) = (think near models json of_outcome generate o a e prompt).0

  abbrev pub prompt_of : Org → Agent → Option Text → Option Text → Result Text
  prompt_of o a role_prompt department_prompt =
      prompt_for near models json of_outcome generate o.world.db a role_prompt department_prompt
