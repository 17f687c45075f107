-- ===== src/Toolbox/Handlers.antt =====
-- tool/definitions/agent and tool/definitions/task: one clause of `run` for each tool's handler, with
-- the arguments its schema lets through. An id that the language model writes is an endpoint's; a
-- text that names none is not modelled. `err` is an exception.
use xevos.Base.{ℕ, Bool, true, false, Option, none, some, List, ◌++◌, Text, text, if◌then◌else◌}
use xevos.Schema.Org.{
  Agent, AgentId, Department, EndpointId, agent, service, auditor_service, endpoint_of, ToolName,
}
use xevos.Schema.Task.{TaskId, TaskStatus, TaskBudget, TaskCreate}
use xevos.Schema.Event.{
  Body, EventInput, Reason, information_request, escalation_request, review_presentation_request,
  message,
}
use xevos.Schema.Json.{Json}
use xevos.Schema.Reasons.{message_of}
use xevos.Sql.{Sql}
use xevos.Db.{Result, ok, err}
use xevos.Bus.Core.{publish}
use xevos.Memory.Service.{Models}
use xevos.Memory.Recall.{Nearest, recall}
use xevos.Memory.Transcript.{newline}
use xevos.Tasks.Repository.{list_tasks_by_agent}
use xevos.Tasks.Service.{Created, Moved, transition}
use xevos.Tasks.Service as Tasks
use xevos.Agents.Service.{Org, Spawned, with_db}
use xevos.Agents.Service as Agents
use xevos.Principal.{receive}
use xevos.Toolbox.Results.{
  accepted, spawned, created, moved, status_report, recalled, delivered, idle, ToolResult, success,
  failure, acknowledgement, Citation, render_citations,
}

-- A call: the tool and its input.
pub data ToolCall : Type 0 where
  send_message : EndpointId → (content : Text) → List Citation → (rationale : Text) → ToolCall
  request_information : EndpointId → (query : Text) → (rationale : Text) → ToolCall
  escalate_blocker : (reason : Text) → (blocked : Option TaskId) → (rationale : Text) → ToolCall
  request_review :
      TaskId → (summary evidence : Text) → List Citation → (rationale : Text) → ToolCall
  create_subordinate_agent : Option Department → ToolCall
  search_memory : (query : Text) → (rationale : Text) → ToolCall
  get_status : (rationale : Text) → ToolCall
  respond_to_principal : (message : Text) → List Citation → (rationale : Text) → ToolCall
  wait_until_response : (rationale : Text) → ToolCall
  create_and_assign_task : TaskCreate → ToolCall
  update_task_status : TaskId → TaskStatus → (rationale : Text) → ToolCall

abbrev pub name_of : ToolCall → ToolName
name_of (send_message _ _ _ _) = ToolName.send_message
name_of (request_information _ _ _) = ToolName.request_information
name_of (escalate_blocker _ _ _) = ToolName.escalate_blocker
name_of (request_review _ _ _ _ _) = ToolName.request_review
name_of (create_subordinate_agent _) = ToolName.create_subordinate_agent
name_of (search_memory _ _) = ToolName.search_memory
name_of (get_status _) = ToolName.get_status
name_of (respond_to_principal _ _ _) = ToolName.respond_to_principal
name_of (wait_until_response _) = ToolName.wait_until_response
name_of (create_and_assign_task _) = ToolName.create_and_assign_task
name_of (update_task_status _ _ _) = ToolName.update_task_status

-- `input.rationale`, where the input has one
abbrev pub rationale_of : ToolCall → Option Text
rationale_of (send_message _ _ _ why) = some why
rationale_of (request_information _ _ why) = some why
rationale_of (escalate_blocker _ _ why) = some why
rationale_of (request_review _ _ _ _ why) = some why
rationale_of (create_subordinate_agent _) = none
rationale_of (search_memory _ why) = some why
rationale_of (get_status why) = some why
rationale_of (respond_to_principal _ _ why) = some why
rationale_of (wait_until_response why) = some why
rationale_of (create_and_assign_task _) = none
rationale_of (update_task_status _ _ why) = some why

-- `direct: true`
abbrev pub is_direct : ToolCall → Bool
is_direct (create_subordinate_agent _) = true
is_direct (create_and_assign_task _) = true
is_direct (update_task_status _ _ _) = true
is_direct _ = false

-- `DEFAULT_TASK_BUDGET`
abbrev pub default_task_budget : TaskBudget
default_task_budget = record { max_tokens = 50000; max_usd = 1 }

abbrev pub command : Agent → EndpointId → Body → EventInput
command a target body = record {
  source = agent a.id;
  target = target;
  correlation_id = none;
  body = body;
}

-- `result.reason ?? …`
abbrev pub reason_or : Json → Option Reason → Text → Text
reason_or json none fallback = fallback
reason_or json (some r) fallback = message_of json r

abbrev pub unavailable : ToolResult
unavailable = failure (text "org operations unavailable")

abbrev pub agent_result : Json → Spawned → ToolResult
agent_result json s =
    if s.approved
    then success (spawned s)
    else failure (reason_or json s.reason (text "agent creation rejected"))

abbrev pub task_result : Json → Created → ToolResult
task_result json c =
    if c.created
    then success (created c)
    else failure (reason_or json c.reason (text "failed to create task"))

abbrev pub transition_result : Json → Moved → ToolResult
transition_result json m =
    if m.transitioned
    then success (moved m)
    else failure (reason_or json m.reason (text "transition failed"))

module _ ⦃sql : Sql⦄ where
  -- The call of a handler that answers without a write.
  abbrev pub answer : Org → ToolResult → Result ToolResult × Org
  answer o r = (ok r, o)

  -- `publish` of ztypes.ts
  unfoldable pub publish_command : Org → ℕ → EventInput → Option Text → Result ToolResult × Org
  publish_command o now input awaiting =
      let (w, sent) = publish o.world now input in
      elim sent [
        | err r ↦ (err r, record o { world = w })
        | ok id ↦ (
          ok (success (accepted id awaiting (acknowledgement id awaiting))),
          record o { world = w },
        )
      ]

  -- The handler of send_message.
  abbrev pub run_send_message :
      Org → ℕ → Agent → EndpointId → Text → List Citation → Result ToolResult × Org
  run_send_message o now a target content cited =
      publish_command o now (command a target (message (content ++ render_citations cited))) none

  -- The handler of request_information.
  abbrev pub run_request_information : Org → ℕ → Agent → EndpointId → Text → Result ToolResult × Org
  run_request_information o now a target query =
      publish_command o now (command a target (information_request query))
        (some (text "information_response"))

  -- The handler of escalate_blocker; an agent always has somebody it reports to.
  abbrev pub run_escalate_blocker : Org → ℕ → Agent → Text → Option TaskId → Result ToolResult × Org
  run_escalate_blocker o now a reason blocked =
      publish_command o now
        (command a (endpoint_of a.reports_to) (escalation_request reason blocked))
        (some (text "escalation_response"))

  abbrev pub evidence_text : Text → Text → List Citation → Text
  evidence_text summary evidence cited =
      summary
      ++ (newline
          ++ (newline ++ (text "Evidence:" ++ (newline ++ (evidence ++ render_citations cited)))))

  -- The handler of request_review.
  abbrev pub run_request_review :
      Org → ℕ → Agent → TaskId → Text → Text → List Citation → Result ToolResult × Org
  run_request_review o now a id summary evidence cited =
      publish_command o now
        (command a (service auditor_service)
          (review_presentation_request (evidence_text summary evidence cited) (some id)))
        (some (text "review_presentation_response"))

  -- The handler of get_status.
  abbrev pub run_get_status : Org → Agent → Result ToolResult × Org
  run_get_status o a =
      answer o (success (status_report a.id a.status (list_tasks_by_agent o.world.db a.id)))

  -- The handler of respond_to_principal, with `Principal.receive` as the sink.
  abbrev pub run_respond : Org → ℕ → Agent → Text → List Citation → Result ToolResult × Org
  run_respond o now a content cited = (
    ok (success delivered),
    record o { world = receive o.world now a.id (content ++ render_citations cited) },
  )

  -- The handler of wait_until_response.
  abbrev pub run_wait : Org → Result ToolResult × Org
  run_wait o = answer o (success idle)

  -- The handler of create_subordinate_agent.
  unfoldable pub run_create_agent :
      Json → Org → ℕ → AgentId → Option Department → Result ToolResult × Org
  run_create_agent json o now creator dept =
      let (result, o') = Agents.create o now creator dept in
      elim result [ err r ↦ (err r, o') | ok s ↦ (ok (agent_result json s), o') ]

  -- The handler of create_and_assign_task.
  unfoldable pub run_create_task : Json → Org → ℕ → TaskCreate → Result ToolResult × Org
  run_create_task json o now args =
      let (c, w) = Tasks.create o.world now (record args { budget = default_task_budget }) in
      (ok (task_result json c), record o { world = w })

  module _ (near : Nearest) (models : Models) (json : Json) where
    -- The handler of search_memory.
    abbrev pub run_search_memory : Org → Text → Result ToolResult × Org
    run_search_memory o query =
        answer o (success (recalled query (recall near models o.world.db query)))

    -- The handler of update_task_status.
    unfoldable pub run_transition :
        Org → ℕ → AgentId → TaskId → TaskStatus → Result ToolResult × Org
    run_transition o now source id to =
        let (m, db) = transition models o.world.db now (agent source) id to none in
        (ok (transition_result json m), with_db o db)

    -- `def.handler(ctx, input)`; the flag says whether `ctx.org` is there.
    unfoldable pub run : Bool → Org → ℕ → Agent → ToolCall → Result ToolResult × Org
    run org o now a (send_message target content cited _) =
        run_send_message o now a target content cited
    run org o now a (request_information target query _) =
        run_request_information o now a target query
    run org o now a (escalate_blocker reason blocked _) =
        run_escalate_blocker o now a reason blocked
    run org o now a (request_review id summary evidence cited _) =
        run_request_review o now a id summary evidence cited
    run true o now a (create_subordinate_agent dept) = run_create_agent json o now a.id dept
    run false o now a (create_subordinate_agent dept) = answer o unavailable
    run org o now a (search_memory query _) = run_search_memory o query
    run org o now a (get_status _) = run_get_status o a
    run org o now a (respond_to_principal content cited _) = run_respond o now a content cited
    run org o now a (wait_until_response _) = run_wait o
    run true o now a (create_and_assign_task args) = run_create_task json o now args
    run false o now a (create_and_assign_task args) = answer o unavailable
    run true o now a (update_task_status id to _) = run_transition o now a.id id to
    run false o now a (update_task_status id to _) = answer o unavailable
