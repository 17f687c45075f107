-- ===== src/Agents/Loop.antt =====
-- `BaseAgent` of core/agents/index.ts: one turn of an agent on an event. The run of the language model
-- is a parameter: from the system prompt and the messages, the tools that it calls, each with its time,
-- and what it answers, or the text of what it throws. `withModel` is modelled in Pool.
use xevos.Base.{
  ℕ, Bool, true, false, ◌&&◌, Option, none, some, List, [], ◌∷◌, ◌++◌, map, Text, text, join, ◌==◌,
  nat_eq, if◌then◌else◌,
}
use xevos.Schema.Org.{worker, engineering, role_eq, department_eq, active, agent_status_eq, Agent}
use xevos.Schema.Task.{Task, TaskId}
use xevos.Schema.Event.{
  EventId, Event, Body, task_delegation_request, topic_of, Reason, external_error,
}
use xevos.Schema.Json.{Json}
use xevos.Schema.Memory.{ModelMessage, user, plain}
use xevos.Schema.Print.{task_text, agent_text, endpoint_text, event_text, topic_text, type_text}
use xevos.Schema.Reasons.{message_of}
use xevos.Sql.{Sql}
use xevos.Db.{Database, Result, ok, err}
use xevos.Memory.Service.{Models}
use xevos.Memory.Recall.{Nearest, assemble_context, record_turn}
use xevos.Memory.Transcript.{newline}
use xevos.Tasks.Repository.{get_task}
use xevos.Agents.Service.{Org, with_db}
use xevos.Prompts.Service.{system_prompt}
use xevos.Toolbox.Results.{Outcome}
use xevos.Toolbox.Handlers.{ToolCall, escalate_blocker}
use xevos.Toolbox.Service.{use_tools, execute}

-- The container of an engineering worker: whether a start succeeds, and the exit code of a command,
-- `none` when the call throws.
pub record Workbench : Type 1 where
  pub Docker : Type 0
  pub start : Docker → Bool × Docker
  pub exec : Docker → Text → Option ℕ × Docker

-- `if (config.role === "worker" && config.department === "engineering")`
abbrev pub has_sandbox : Agent → Bool
has_sandbox a = a.role == worker && a.department == engineering

abbrev pub criteria_text : List Text → Text
criteria_text [] = text "- (none specified)"
criteria_text (c ∷ cs) = join newline (map (λ x. text "- " ++ x) (c ∷ cs))

abbrev pub delegation_text : TaskId → Option Task → Text
delegation_text id none =
    text "You were delegated task " ++ (task_text id ++ text ", but it could not be found.")
delegation_text id (some t) = join newline (
    (text "You have been assigned task "
      ++ (task_text t.id ++ (text ": \"" ++ (t.title ++ text "\"."))))
    ∷ []
    ∷ t.description
    ∷ []
    ∷ text "Acceptance criteria:"
    ∷ criteria_text t.acceptance_criteria
    ∷ [])

abbrev pub correlation_text : Option EventId → Text
correlation_text none = []
correlation_text (some id) = text " (in reply to your command " ++ (event_text id ++ text ")")

-- `error handling ${event.type} (${event.id}): ${String(err)}`
abbrev pub error_text : Json → Event → Reason → Text
error_text json e r =
    text "error handling "
    ++ (type_text e.body
        ++ (text " (" ++ (event_text e.id ++ (text "): Error: " ++ message_of json r))))

module _ (b : Workbench) where
  -- Whether `prepareSandbox` returned, whether the sandbox is prepared, and the container.
  abbrev pub run_all : b.Docker → List Text → Bool × Bool × b.Docker
  run_all d [] = (true, true, d)
  run_all d (command ∷ commands) =
      let (code, d') = b.exec d command in
      elim code [ none ↦ (false, false, d') | some _ ↦ run_all d' commands ]

  -- The commands that set the branch up.
  abbrev pub branch_commands : Text → List Text
  branch_commands branch =
      (text "git config user.email \""
        ++ (branch ++ (text "@agents.local\" && git config user.name \"" ++ (branch ++ text "\""))))
      ∷ (text "git checkout \""
          ++ (branch ++ (text "\" 2>/dev/null || git checkout -b \"" ++ (branch ++ text "\""))))
      ∷ []

  abbrev pub set_up : Text → Option ℕ → b.Docker → Bool × Bool × b.Docker
  set_up branch none d = (false, false, d)
  set_up branch (some code) d =
      run_all d
        (if code == 0 then branch_commands branch else text "git init -q" ∷ branch_commands branch)

  -- `prepareSandbox`: the container is started on every turn, and set up once.
  unfoldable pub prepare_sandbox : Text → Bool → b.Docker → Bool × Bool × b.Docker
  prepare_sandbox branch prepared d =
      let (started, d') = b.start d in
      let (code, d'') = b.exec d' (text "git rev-parse --is-inside-work-tree") in
      if started
      then (if prepared then (true, true, d') else set_up branch code d'')
      else (false, prepared, d')

-- `generateText`, with the tools of the agent
abbrev pub Generate : Type 0
Generate = Text → List ModelMessage → List (ℕ × ToolCall) × Result (List ModelMessage)

module _ ⦃sql : Sql⦄ (near : Nearest) (models : Models) (json : Json) (of_outcome : Outcome → Text)
    (generate : Generate) where
  -- `body` of `prepareMessage`
  abbrev pub body_text : Database → Event → Body → Text
  body_text db e (task_delegation_request id) = delegation_text id (get_task db id)
  body_text db e body = text "From " ++ (endpoint_text e.source ++ (text ":" ++ json.of_body body))

  -- `prepareMessage`
  unfoldable pub prepare_message : Database → Event → ModelMessage
  prepare_message db e = record {
    role = user;
    id = none;
    content = plain (
        text "["
        ++ (topic_text (topic_of e.body)
            ++ (text "/"
                ++ (type_text e.body
                    ++ (text "]"
                        ++ (correlation_text e.correlation_id
                            ++ (newline ++ body_text db e e.body)))))));
  }

  -- `buildSystemPrompt` with the prompts that are cached
  abbrev pub prompt_for : Database → Agent → Option Text → Option Text → Result Text
  prompt_for db a (some role_prompt) (some department_prompt) =
      system_prompt db role_prompt department_prompt a
  prompt_for db a _ _ = err external_error

  -- `recordTurn` on what the model answered; the exception of the model or of the write, where there is
  -- one, leaves `handle`.
  unfoldable pub record_reply :
      Org → ℕ → Agent → ModelMessage → Result (List ModelMessage) → Option Reason × Org
  record_reply o now a new (err r) = (some r, o)
  record_reply o now a new (ok replies) = elim (record_turn o.world.db now a (new ∷ replies)) [
    | err r ↦ (some r, o)
    | ok (m, db) ↦ (none, with_db o db)
  ]

  -- What the model did in a turn: the organization after its tool calls, and its answer.
  abbrev pub think : Org → Agent → Event → Text → Org × Result (List ModelMessage)
  think o a e prompt =
      let (calls, reply) =
        generate prompt (
          assemble_context near models json o.world.db a e
          ++ (prepare_message o.world.db e ∷ [])) in
      (use_tools near models json of_outcome o a (has_sandbox a) calls, reply)

  -- `handle`, from the sandbox on; the prompt may have thrown.
  unfoldable pub turn : Org → ℕ → Agent → Event → Result Text → Option Reason × Org
  turn o now a e (err r) = (some r, o)
  turn o now a e (ok prompt) =
      let (o', reply) = think o a e prompt in
      record_reply o' now a (prepare_message o.world.db e) reply

  -- `handle`, after `prepareSandbox` has returned or not
  abbrev pub handle_event : Org → ℕ → Agent → Event → Bool → Result Text → Option Reason × Org
  handle_event o now a e true prompt = turn o now a e prompt
  handle_event o now a e false prompt = (some external_error, o)

  -- `onError`; the call's own failure is a result that nobody reads.
  unfoldable pub on_error : Org → ℕ → Agent → Event → Reason → Org
  on_error o now a e r =
      (execute near models json of_outcome o now a (
        escalate_blocker (error_text json e r) none
          (text "Automatic escalation after an unhandled error."))).1

  -- The `try` of `run`: what `handle` has left, and what it threw.
  abbrev pub settle : ℕ → Agent → Event → Option Reason × Org → Org
  settle now a e (none, o) = o
  settle now a e (some r, o) = on_error o now a e r

  -- The body of the loop of `run`: an event for an agent that is not active is dropped.
  unfoldable pub run_event : Org → ℕ → Agent → Event → Bool → Result Text → Org
  run_event o now a e prepared prompt =
      let out = settle now a e (handle_event o now a e prepared prompt) in
      if a.status == active then out else o

  -- The container of an agent that has one is made ready for the turn.
  abbrev pub make_ready : (b : Workbench) → Agent → Bool → b.Docker → Bool × Bool × b.Docker
  make_ready b a prepared d =
      let readied = prepare_sandbox b (agent_text a.id) prepared d in
      if has_sandbox a then readied else (true, prepared, d)

  -- An event taken from the mailbox, with the cached prompts of the role and of the department, and the
  -- container of the agent: the organization, whether the sandbox is prepared, and the container.
  unfoldable pub take_event :
      (b : Workbench)
      → Org
      → ℕ
      → Agent
      → Event
      → Option Text
      → Option Text
      → Bool
      → b.Docker
      → Org × Bool × b.Docker
  take_event b o now a e role_prompt department_prompt prepared d =
      let (ready, prepared', d') = make_ready b a prepared d in
      let out = run_event o now a e ready (prompt_for o.world.db a role_prompt department_prompt) in
      if a.status == active then (out, prepared', d') else (o, prepared, d)
