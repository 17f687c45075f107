-- ===== src/Toolbox/Service.antt =====
-- tool/registry.ts, tool/executor.ts and tool/service.ts, `observe` of tool/ztypes.ts, and the tables of
-- tool/definitions/index.ts and tool/definitions/code/index.ts.
use xevos.Base.{
  ℕ, Bool, true, false, none, List, [], ◌∷◌, ◌++◌, any, keep, ◌==◌, Text, if◌then◌else◌,
}
use xevos.Schema.Org.{
  Agent, agent, service, observer_service, ToolName, tool_name_eq, send_message,
  request_information, escalate_blocker, request_review, create_subordinate_agent, search_memory,
  get_status, respond_to_principal, wait_until_response, web_search, create_and_assign_task,
  update_task_status, bash, read_file, write_file, edit_file, multi_edit, insert, list_dir, glob,
  grep,
}
use xevos.Schema.Event.{EventInput, tool_executed}
use xevos.Schema.Json.{Json}
use xevos.Schema.Reasons.{message_of}
use xevos.Sql.{Sql}
use xevos.Db.{Result, ok, err}
use xevos.Bus.Core.{publish}
use xevos.Memory.Service.{Models}
use xevos.Memory.Recall.{Nearest}
use xevos.Agents.Roles.{role_tools, department_worker_tools}
use xevos.Agents.Service.{Org}
use xevos.Toolbox.Results.{Outcome, ToolResult, success, failure, succeeded, clip_detail}
use xevos.Toolbox.Handlers.{ToolCall, name_of, rationale_of, is_direct, run}

-- `definitions`: `agentDefinitions` and `taskDefinitions`
abbrev pub definitions : List ToolName
definitions =
    send_message ∷ request_information ∷ escalate_blocker ∷ request_review
    ∷ create_subordinate_agent ∷ search_memory ∷ get_status ∷ respond_to_principal
    ∷ wait_until_response ∷ web_search ∷ create_and_assign_task ∷ update_task_status ∷ []

-- `codingTools`
abbrev pub coding_tools : List ToolName
coding_tools =
    bash ∷ read_file ∷ write_file ∷ edit_file ∷ multi_edit ∷ insert ∷ list_dir ∷ glob ∷ grep ∷ []

-- `toolSet[name]` is there
abbrev pub is_registered : ToolName → Bool
is_registered name = any (λ d. d == name) definitions

-- `resolve`, by name; the flag says whether the agent has a sandbox.
unfoldable pub resolve : Agent → Bool → List ToolName
resolve a sandbox =
    keep is_registered (role_tools a.role ++ department_worker_tools a.department)
    ++ (if sandbox then coding_tools else [])

-- `codingTools` among the definitions of `createDefinitionMap`
unfoldable pub definition_map : Bool → List ToolName
definition_map sandbox = if sandbox then definitions ++ coding_tools else definitions

-- `result.success ? result.result : result.error`, as `clipDetail` turns it into a text
abbrev pub detail_of : (Outcome → Text) → ToolResult → Text
detail_of of_outcome (success o) = of_outcome o
detail_of of_outcome (failure t) = t

module _ (of_outcome : Outcome → Text) where
  -- The event that `observe` publishes.
  unfoldable pub observation : Agent → ToolCall → ToolResult → EventInput
  observation a call r = record {
    source = agent a.id;
    target = service observer_service;
    correlation_id = none;
    body =
        tool_executed a.id (name_of call) (rationale_of call) (succeeded r)
          (clip_detail (detail_of of_outcome r));
  }

module _ ⦃sql : Sql⦄ (near : Nearest) (models : Models) (json : Json)
    (of_outcome : Outcome → Text) where
  -- `observe`; what `publish` throws leaves `execute`.
  unfoldable pub observe : Org → ℕ → Agent → ToolCall → ToolResult → Result ToolResult × Org
  observe o now a call r =
      let (w, sent) = publish o.world now (observation of_outcome a call r) in
      elim sent [ err x ↦ (err x, record o { world = w }) | ok _ ↦ (ok r, record o { world = w }) ]

  -- `execute` of an entry of `getTools`
  unfoldable pub use_tool : Org → ℕ → Agent → ToolCall → Result ToolResult × Org
  use_tool o now a call =
      let (result, o') = run near models json true o now a call in
      elim result [
        | err x ↦ (err x, o')
        | ok r ↦ if is_direct call then observe o' now a call r else (ok r, o')
      ]

  -- The calls of one run of the model. It is given the tools of `getTools` alone, and what a tool throws
  -- it is told.
  unfoldable pub use_tools : Org → Agent → Bool → List (ℕ × ToolCall) → Org
  use_tools o a sandbox [] = o
  use_tools o a sandbox ((now, call) ∷ calls) =
      let o' = (use_tool o now a call).1 in
      use_tools (if any (λ n. n == name_of call) (resolve a sandbox) then o' else o) a sandbox calls

  -- `ToolExecutor.execute`, whose context has no `org`; an exception becomes a failure. Every call of
  -- this model is in the map.
  unfoldable pub execute : Org → ℕ → Agent → ToolCall → ToolResult × Org
  execute o now a call =
      let (result, o') = run near models json false o now a call in
      elim result [ err x ↦ (failure (message_of json x), o') | ok r ↦ (r, o') ]
