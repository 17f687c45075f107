-- ===== src/Prompts/Service.antt =====
-- `buildSystemPrompt` of core/services/prompt.ts. The prompts of the role and of the department are
-- arguments: the repository of prompts reads them from its cache.
use xevos.Base.{List, [], ◌∷◌, ◌++◌, map, Text, text, join}
use xevos.Schema.Org.{
  AgentId, Agent, ReportTargetId, to_agent, to_principal, ToolName, request_information,
  escalate_blocker, search_memory, send_message, update_task_status, wait_until_response,
  get_status, create_subordinate_agent, create_and_assign_task, request_review, web_search,
  respond_to_principal, bash, read_file, write_file, edit_file, multi_edit, insert, list_dir, glob,
  grep,
}
use xevos.Schema.Print.{role_text, department_text, agent_text}
use xevos.Sql.{Sql}
use xevos.Db.{Database, Result, ok, err}
use xevos.Agents.Repository.{get_agent}

abbrev newline : Text
newline = 10 ∷ []

abbrev pub tool_text : ToolName → Text
tool_text request_information = text "request_information"
tool_text escalate_blocker = text "escalate_blocker"
tool_text search_memory = text "search_memory"
tool_text send_message = text "send_message"
tool_text update_task_status = text "update_task_status"
tool_text wait_until_response = text "wait_until_response"
tool_text get_status = text "get_status"
tool_text create_subordinate_agent = text "create_subordinate_agent"
tool_text create_and_assign_task = text "create_and_assign_task"
tool_text request_review = text "request_review"
tool_text web_search = text "web_search"
tool_text respond_to_principal = text "respond_to_principal"
tool_text bash = text "bash"
tool_text read_file = text "read_file"
tool_text write_file = text "write_file"
tool_text edit_file = text "edit_file"
tool_text multi_edit = text "multi_edit"
tool_text insert = text "insert"
tool_text list_dir = text "list_dir"
tool_text glob = text "glob"
tool_text grep = text "grep"

-- `[…].join("\n")`
abbrev section : List Text → Text
section ls = join newline ls

abbrev bullet : Text → Text
bullet t = text "- " ++ t

abbrev target_text : ReportTargetId → Text
target_text (to_agent a) = agent_text a
target_text to_principal = text "principal"

unfoldable pub coordination : Text
coordination = section (
    text "[How coordination works]"
    ∷ text
        "You are one agent in an asynchronous, event-driven organization. You act only through tools, and tools come in two kinds — know which you are calling:"
    ∷ text
        "- DIRECT tools (create_subordinate_agent, create_and_assign_task, update_task_status, and all coding tools) run immediately and return the REAL result in the SAME step: create_subordinate_agent returns the new agent's id, create_and_assign_task returns the new taskId. Read that result and act on it right away — do NOT call wait_until_response after a direct tool, and do NOT expect a separate response event for it."
    ∷ text
        "- BUS tools (send_message, request_information, request_review, escalate_blocker) are messages to other agents or services. They return only an ACKNOWLEDGEMENT ({ status: \"accepted\", eventId, … }), never the result. If a reply is expected it arrives LATER as its own event addressed to you, labelled \"in reply to your command <eventId>\" (e.g. information_response carries the answer). After a bus command whose reply you need next, call wait_until_response and the reply will wake you."
    ∷ text
        "- NEVER invent or guess an id. For a direct tool you already hold the real id it just returned; for a bus tool, wait for the response event before using anything it will carry."
    ∷ [])

-- A section that stands only where its list is not empty.
abbrev listed : Text → List Text → List Text
listed title [] = []
listed title (x ∷ xs) = section (title ∷ map bullet (x ∷ xs)) ∷ []

abbrev management : List Text → List Text
management [] = []
management (x ∷ xs) =
    section (
      text "[Management Responsibilities]"
      ∷ (text "You manage " ++ (join newline (x ∷ xs) ++ text " agents."))
      ∷ [])
    ∷ []

-- The sections, in order, given the ids of the agents that are managed.
unfoldable pub sections : Text → Text → Agent → List Text → List Text
unfolding coordination
sections role_prompt department_prompt a managed =
    coordination
    ∷ section (text "[Role Instructions]" ∷ role_prompt ∷ [])
    ∷ section (text "[Department Instructions]" ∷ department_prompt ∷ [])
    ∷ section (
        text "[Agent Profile]"
        ∷ (text "Id: " ++ agent_text a.id)
        ∷ (text "Role: " ++ role_text a.role)
        ∷ (text "Department: " ++ department_text a.department)
        ∷ [])
    ∷ section (text "[Objective]" ∷ a.objective ∷ [])
    ∷ (listed (text "[Responsibilities]") a.responsibilities
        ++ (listed (text "KPIs") a.kpis
            ++ ((section (
                    text "Reporting Structure"
                    ∷ (text "You report to " ++ (target_text a.reports_to ++ text "."))
                    ∷ [])
                  ∷ [])
                ++ (management managed
                    ++ listed (text "Available Tools") (map tool_text a.tools)))))

module _ ⦃sql : Sql⦄ where
  -- `agent.manages.map((agentId) => this.agents.get(agentId).id)`, which throws at the first id that
  -- is not on file
  unfoldable pub managed_ids : Database → List AgentId → Result (List Text)
  managed_ids db [] = ok []
  managed_ids db (m ∷ ms) =
      let rest = managed_ids db ms in
      elim (get_agent db m) [
        | err r ↦ err r
        | ok b ↦ elim rest [ err r ↦ err r | ok ts ↦ ok (agent_text b.id ∷ ts) ]
      ]

  -- `buildSystemPrompt`
  unfoldable pub system_prompt : Database → Text → Text → Agent → Result Text
  system_prompt db role_prompt department_prompt a = elim (managed_ids db a.manages) [
    | err r ↦ err r
    | ok managed ↦ ok (join (10 ∷ 10 ∷ []) (sections role_prompt department_prompt a managed))
  ]
