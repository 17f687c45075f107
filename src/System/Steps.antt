-- ===== src/System/Steps.antt =====
-- Every component's steps on the world that they share, and what becomes of a closed task.
use xevos.Base.{
  ℕ, ◌≡◌, refl, Bool, true, false, Option, none, some, List, ◌∷◌, ◌++◌, inl, inr, arith, nat_eq,
  Text,
}
use xevos.Schema.Org.{agent, AgentId, Agent, Department}
use xevos.Schema.Task.{TaskId, Task}
use xevos.Schema.Event.{Event, EventInput, Body, review_presentation_request}
use xevos.Schema.Json.{Json}
use xevos.Schema.Memory.{ModelMessage}
use xevos.Sql.{Sql}
use xevos.Db.{Result, ok, err, Result-cases}
use xevos.Bus.Core.{World, MailboxRef, publish, take}
use xevos.Bus.Store.{mark_consumed}
use xevos.Bus.Frame.{publish-tables}
use xevos.Memory.Service.{Models}
use xevos.Memory.Recall.{Nearest}
use xevos.Memory.Appending.{append_memory-Appended}
use xevos.Tasks.Repository.{get_task}
use xevos.Tasks.Service.{is_terminal}
use xevos.Tasks.Service as Tasks
use xevos.Tasks.Lifecycle.{is_update, create-keeps, transition-keeps, dispatch-keeps}
use xevos.Agents.Service.{Org}
use xevos.Agents.Service as Agents
use xevos.Agents.Loop.{Generate, record_reply}
use xevos.Audit.Service.{Assessment, Containers, review, deliver_verdict}
use xevos.Audit.Service as Audit
use xevos.Principal.{receive, reply}
use xevos.Toolbox.Results.{Outcome, render_citations}
use xevos.Toolbox.Handlers.{
  ToolCall, send_message, request_information, escalate_blocker, request_review,
  create_subordinate_agent, search_memory, get_status, respond_to_principal, wait_until_response,
  create_and_assign_task, update_task_status, run, run_create_agent, run_create_task,
  run_transition,
}
use xevos.Toolbox.Service.{use_tool}
use xevos.Toolbox.Parity.{use_tool-Agree}
use xevos.System.Frame.{
  Stays, same_tasks, create-tasks, dispatch-tasks, publish-Stays, command-Stays,
}
use xevos.Tasks.Service as Tasks
use xevos.Agents.Service as Agents
use xevos.Audit.Service as Audit

module _ ⦃sql : Sql⦄ where
  module _ (near : Nearest) (models : Models) (json : Json) where
    created-Stays :
        (o : Org) (now : ℕ) (creator : AgentId) (dept : Option Department) (j : TaskId) (t : Task)
        → Stays j t o (run_create_agent json o now creator dept).1
    unfolding run_create_agent
    created-Stays o now creator dept j t =
        let made = Agents.create o now creator dept in
        elim (Result-cases made.0) [
          | inl (s, h) ↦
              rw (h, run_create_agent) (same_tasks j t o made.1 (create-tasks o now creator dept))
          | inr (x, h) ↦
              rw (h, run_create_agent) (same_tasks j t o made.1 (create-tasks o now creator dept))
        ]

    -- No tool reopens a closed task or changes it.
    run-Stays :
        (o : Org) (now : ℕ) (a : Agent) (call : ToolCall) (j : TaskId) (t : Task)
        → is_terminal t.status ≡ true
        → Stays j t o (run near models json true o now a call).1
    unfolding run run_create_task run_transition receive
    run-Stays o now a (create_subordinate_agent dept) j t closed = created-Stays o now a.id dept j t
    run-Stays o now a (create_and_assign_task args) j t closed = create-keeps o.world now _ j t
    run-Stays o now a (update_task_status id to why) j t closed =
        λ found. transition-keeps models o.world.db now (agent a.id) id to none j t found closed
    run-Stays o now a (search_memory query why) j t closed = λ found. found
    run-Stays o now a (get_status why) j t closed = λ found. found
    run-Stays o now a (wait_until_response why) j t closed = λ found. found
    run-Stays o now a (respond_to_principal content cited why) j t closed =
        publish-Stays j t o now (reply a.id (content ++ render_citations cited))
    run-Stays o now a (send_message target content cited why) j t closed =
        command-Stays j t o now _ none
    run-Stays o now a (request_information target query why) j t closed =
        command-Stays j t o now _ _
    run-Stays o now a (escalate_blocker reason blocking why) j t closed =
        command-Stays j t o now _ _
    run-Stays o now a (request_review id summary evidence cited why) j t closed =
        command-Stays j t o now _ _

    tool-Stays :
        (of_outcome : Outcome → Text) (o : Org) (now : ℕ) (a : Agent) (call : ToolCall) (j : TaskId)
        (t : Task)
        → is_terminal t.status ≡ true
        → Stays j t o (use_tool near models json of_outcome o now a call).1
    tool-Stays of_outcome o now a call j t closed found =
        let o' = (run near models json true o now a call).1 in
        same_tasks j t o' (use_tool near models json of_outcome o now a call).1
          (use_tool-Agree near models json of_outcome o now a call).tasks
          (run-Stays o now a call j t closed found)

    module _ (c : Containers) (of_outcome : Outcome → Text) (generate : Generate) where
      -- One step of one component.
      pub data Step (o : Org) : Org → Type 0 where
        -- an agent calls a tool
        calls :
            (now : ℕ) (a : Agent) (call : ToolCall)
            → Step o (use_tool near models json of_outcome o now a call).1
        -- an agent ends its turn
        ends :
            (now : ℕ) (a : Agent) (new : ModelMessage) (reply : Result (List ModelMessage))
            → Step o (record_reply near models json of_outcome generate o now a new reply).1
        -- the task service handles an event
        serves_task :
            (now : ℕ) (e : Event) → Step o (record o { world = Tasks.handle models o.world now e })
        -- the agent service handles an event
        serves_agent : (now : ℕ) (e : Event) → Step o (Agents.dispatch o now e e.body)
        -- the auditor handles an event
        reviews :
            (d : c.Docker) (now : ℕ) (e : Event) (reads : ℕ → List ModelMessage)
            → Step o (record o { world = (Audit.handle c o.world d now e e.body reads).0 })
        -- anybody publishes
        publishes :
            (now : ℕ) (input : EventInput)
            → Step o (record o { world = (publish o.world now input).0 })
        -- a consumer takes its next event
        takes : (r : MailboxRef) → Step o (record o { world = (take o.world r).1 })

      -- Any number of steps of any components, in any order.
      pub data Reaches (o : Org) : Org → Type 0 where
        here : Reaches o o
        onward : (p q : Org) → Reaches o p → Step p q → Reaches o q

      -- The step is not the task service handling an update request.
      abbrev pub IsNoUpdate : {o p : Org} → Step o p → Type 0
      IsNoUpdate (serves_task now e) = is_update e.body ≡ false
      IsNoUpdate (calls now a call) = Unit
      IsNoUpdate (ends now a new reply) = Unit
      IsNoUpdate (serves_agent now e) = Unit
      IsNoUpdate (reviews d now e reads) = Unit
      IsNoUpdate (publishes now input) = Unit
      IsNoUpdate (takes r) = Unit

      abbrev pub HasNoUpdate : {o p : Org} → Reaches o p → Type 0
      HasNoUpdate here = Unit
      HasNoUpdate (onward p q before s) = HasNoUpdate before × IsNoUpdate s

      recorded-tasks :
          (o : Org) (now : ℕ) (a : Agent) (new : ModelMessage) (r : Result (List ModelMessage))
          → (record_reply near models json of_outcome generate o now a new r).1.world.db.tasks
            ≡ o.world.db.tasks
      unfolding record_reply
      recorded-tasks o now a new (err x) = refl
      recorded-tasks o now a new (ok replies) =
          let p = append_memory-Appended o.world.db now a.id (new ∷ replies) in
          ground (arith, p.stored, p.tasks)

      delivered-tasks :
          (w : World) (now : ℕ) (e : Event) (task : Option Task) (attached : Bool)
          (a : Option Assessment) (d : c.Docker)
          → (deliver_verdict c w now e.source task attached a d).0.db.tasks ≡ w.db.tasks
      unfolding deliver_verdict
      delivered-tasks w now e task attached none d = refl
      delivered-tasks w now e task attached (some a) d = (publish-tables w now _).0

      audit-tasks :
          (w : World) (d : c.Docker) (now : ℕ) (e : Event) (body : Body)
          (reads : ℕ → List ModelMessage)
          → (Audit.handle c w d now e body reads).0.db.tasks ≡ w.db.tasks
      unfolding Audit.handle review
      audit-tasks w d now e (review_presentation_request summary id) reads =
          delivered-tasks w now e _ _ _ _
      audit-tasks w d now e body reads = refl

      taken-tasks : (w : World) (r : MailboxRef) → (take w r).1.db.tasks ≡ w.db.tasks
      unfolding take mark_consumed
      taken-tasks w r = ground arith

      step-Stays :
          (o p : Org) (j : TaskId) (t : Task)
          → (s : Step o p) → IsNoUpdate s
          → is_terminal t.status ≡ true
          → Stays j t o p
      unfolding Tasks.handle
      step-Stays o p j t (calls now a call) other closed =
          tool-Stays of_outcome o now a call j t closed
      step-Stays o p j t (ends now a new r) other closed =
          same_tasks j t o p (recorded-tasks o now a new r)
      step-Stays o p j t (serves_task now e) other closed =
          λ found. dispatch-keeps models o.world now e e.body j t found closed other
      step-Stays o p j t (serves_agent now e) other closed =
          same_tasks j t o p (dispatch-tasks o now e e.body)
      step-Stays o p j t (reviews d now e reads) other closed =
          same_tasks j t o p (audit-tasks o.world d now e e.body reads)
      step-Stays o p j t (publishes now input) other closed = publish-Stays j t o now input
      step-Stays o p j t (takes r) other closed = same_tasks j t o p (taken-tasks o.world r)

      -- Whatever agents call, whatever the services and the auditor handle, and whatever is published and
      -- taken, in any order: a task that is closed keeps every field, as long as the task service is given
      -- no update request.
      pub closed_forever :
          (o p : Org) (j : TaskId) (t : Task)
          → (r : Reaches o p) → HasNoUpdate r
          → get_task o.world.db j ≡ some t
          → is_terminal t.status ≡ true
          → get_task p.world.db j ≡ some t
      closed_forever o p j t here none_yet found closed = found
      closed_forever o p j t (onward q p' before s) free found closed =
          step-Stays q p j t s free.1 closed (closed_forever o q j t before free.0 found closed)
