-- ===== src/System/Order.antt =====
-- Every component's steps keep the organization in order.
use xevos.Base.{
  ℕ, ◌≡◌, refl, sym, subst, Bool, true, Option, none, some, inl, inr, arith, List, ◌∷◌, ◌++◌, Text,
  nat_eq,
}
use xevos.Schema.Org.{Agent, AgentId, Department, agent}
use xevos.Schema.Task.{Task}
use xevos.Schema.Event.{Event, EventInput, Body, review_presentation_request}
use xevos.Schema.Json.{Json}
use xevos.Schema.Memory.{ModelMessage}
use xevos.Sql.{Sql}
use xevos.Db.{Result, ok, err, Result-cases}
use xevos.Bus.Core.{World, MailboxRef, publish, take}
use xevos.Bus.Store.{mark_consumed}
use xevos.Bus.Frame.{publish-tables}
use xevos.Memory.Service.{Models}
use xevos.Memory.Recall.{Nearest}
use xevos.Memory.Appending.{append_memory-Appended}
use xevos.Agents.Service.{Org}
use xevos.Agents.Loop.{Generate, record_reply}
use xevos.Agents.Orderly.{IsOrderly}
use xevos.Agents.Policy.{Orderly, create-Orderly, dispatch-Orderly}
use xevos.Audit.Service.{Assessment, Containers, review, deliver_verdict}
use xevos.Principal.{receive, reply}
use xevos.Toolbox.Results.{Outcome, render_citations}
use xevos.Toolbox.Handlers.{
  ToolCall, send_message, request_information, escalate_blocker, request_review,
  create_subordinate_agent, search_memory, get_status, respond_to_principal, wait_until_response,
  create_and_assign_task, update_task_status, publish_command, run, run_create_agent,
  run_create_task, run_transition,
}
use xevos.Toolbox.Parity.{use_tool-Agree}
use xevos.System.Roster.{create-agents, transition-agents, dispatch-agents}
use xevos.System.Steps.{
  Step, calls, ends, serves_task, serves_agent, reviews, publishes, takes, Reaches, here, onward,
}
use xevos.Tasks.Service as Tasks
use xevos.Audit.Service as Audit
use xevos.Agents.Service as Agents

module _ ⦃sql : Sql⦄ where
  same_agents : (o p : Org) → p.world.db.agents ≡ o.world.db.agents → Orderly o → Orderly p
  same_agents o p h v = subst (λ t. IsOrderly (sql.rows t)) (sym h) v

  command-Orderly :
      (o : Org) (now : ℕ) (input : EventInput) (awaiting : Option Text)
      → Orderly o
      → Orderly (publish_command o now input awaiting).1
  unfolding publish_command
  command-Orderly o now input awaiting v =
      let published =
        same_agents o (record o { world = (publish o.world now input).0 })
          (publish-tables o.world now input).1 v in
      elim (Result-cases (publish o.world now input).1) [
        | inl (n, h) ↦ rw (h, publish_command) published
        | inr (x, h) ↦ rw (h, publish_command) published
      ]

  module _ (near : Nearest) (models : Models) (json : Json) where
    created-Orderly :
        (o : Org) (now : ℕ) (creator : AgentId) (dept : Option Department)
        → Orderly o
        → Orderly (run_create_agent json o now creator dept).1
    unfolding run_create_agent
    created-Orderly o now creator dept v =
        elim (Result-cases (Agents.create o now creator dept).0) [
          | inl (s, h) ↦ rw (h, run_create_agent) (create-Orderly o now creator dept v)
          | inr (x, h) ↦ rw (h, run_create_agent) (create-Orderly o now creator dept v)
        ]

    run-Orderly :
        (o : Org) (now : ℕ) (a : Agent) (call : ToolCall)
        → Orderly o
        → Orderly (run near models json true o now a call).1
    unfolding run run_create_task run_transition receive
    run-Orderly o now a (create_subordinate_agent dept) v = created-Orderly o now a.id dept v
    run-Orderly o now a (create_and_assign_task args) v =
        subst (λ t. IsOrderly (sql.rows t)) (sym (create-agents o.world now _)) v
    run-Orderly o now a (update_task_status id to why) v =
        subst (λ t. IsOrderly (sql.rows t))
          (sym (transition-agents models o.world.db now (agent a.id) id to none)) v
    run-Orderly o now a (search_memory query why) v = v
    run-Orderly o now a (get_status why) v = v
    run-Orderly o now a (wait_until_response why) v = v
    run-Orderly o now a (respond_to_principal content cited why) v =
        subst (λ t. IsOrderly (sql.rows t))
          (sym (publish-tables o.world now (reply a.id (content ++ render_citations cited))).1) v
    run-Orderly o now a (send_message target content cited why) v = command-Orderly o now _ none v
    run-Orderly o now a (request_information target query why) v = command-Orderly o now _ _ v
    run-Orderly o now a (escalate_blocker reason blocking why) v = command-Orderly o now _ _ v
    run-Orderly o now a (request_review id summary evidence cited why) v =
        command-Orderly o now _ _ v

    module _ (c : Containers) (of_outcome : Outcome → Text) (generate : Generate) where
      recorded-agents :
          (o : Org) (now : ℕ) (a : Agent) (new : ModelMessage) (r : Result (List ModelMessage))
          → (record_reply near models json of_outcome generate o now a new r).1.world.db.agents
            ≡ o.world.db.agents
      unfolding record_reply
      recorded-agents o now a new (err x) = refl
      recorded-agents o now a new (ok replies) =
          let p = append_memory-Appended o.world.db now a.id (new ∷ replies) in
          ground (arith, p.stored, p.agents)

      delivered-agents :
          (w : World) (now : ℕ) (e : Event) (task : Option Task) (attached : Bool)
          (a : Option Assessment) (d : c.Docker)
          → (deliver_verdict c w now e.source task attached a d).0.db.agents ≡ w.db.agents
      unfolding deliver_verdict
      delivered-agents w now e task attached none d = refl
      delivered-agents w now e task attached (some a) d = (publish-tables w now _).1

      audit-agents :
          (w : World) (d : c.Docker) (now : ℕ) (e : Event) (body : Body)
          (reads : ℕ → List ModelMessage)
          → (Audit.handle c w d now e body reads).0.db.agents ≡ w.db.agents
      unfolding Audit.handle review
      audit-agents w d now e (review_presentation_request summary id) reads =
          delivered-agents w now e _ _ _ _
      audit-agents w d now e body reads = refl

      taken-agents : (w : World) (r : MailboxRef) → (take w r).1.db.agents ≡ w.db.agents
      unfolding take mark_consumed
      taken-agents w r = ground arith

      step-Orderly :
          (o p : Org) → Step near models json c of_outcome generate o p → Orderly o → Orderly p
      unfolding Tasks.handle
      step-Orderly o p (calls now a call) v =
          same_agents (run near models json true o now a call).1 p
            (use_tool-Agree near models json of_outcome o now a call).agents
            (run-Orderly o now a call v)
      step-Orderly o p (ends now a new r) v = same_agents o p (recorded-agents o now a new r) v
      step-Orderly o p (serves_task now e) v =
          same_agents o p (dispatch-agents models o.world now e e.body) v
      step-Orderly o p (serves_agent now e) v = dispatch-Orderly o now e e.body v
      step-Orderly o p (reviews d now e reads) v =
          same_agents o p (audit-agents o.world d now e e.body reads) v
      step-Orderly o p (publishes now input) v =
          same_agents o p (publish-tables o.world now input).1 v
      step-Orderly o p (takes r) v = same_agents o p (taken-agents o.world r) v

      -- From an organization in order, whatever steps its components take, in any order, update requests
      -- to the task service among them, it has at most 40
      -- agents, none with more than 8 direct reports on record, each one rung under the agent it reports to
      -- and in its department unless that is the executive.
      pub Reaches-Orderly :
          (o p : Org) → Reaches near models json c of_outcome generate o p → Orderly o → Orderly p
      Reaches-Orderly o p here v = v
      Reaches-Orderly o p (onward q p' before s) v =
          step-Orderly q p s (Reaches-Orderly o q before v)
