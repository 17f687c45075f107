-- ===== src/Agents/Roles.antt =====
-- What an agent is by its role alone: the ladder, the static identity of core/services/agent.ts, and
-- the tools of core/services/tool/default-tools.ts.
use xevos.Base.{Option, none, some, List, [], ◌∷◌, ◌++◌, Text, text}
use xevos.Schema.Print.{department_text}
use xevos.Schema.Org.{
  Role, executive, head, manager, worker, Department, ToolName, request_information,
  escalate_blocker, search_memory, send_message, update_task_status, wait_until_response,
  get_status, create_subordinate_agent, create_and_assign_task, request_review, web_search,
  respond_to_principal,
}

-- `NEXT_ROLE`
abbrev pub next_role : Role → Option Role
next_role executive = some head
next_role head = some manager
next_role manager = some worker
next_role worker = none

-- `staticObjective`
unfoldable pub static_objective : Role → Department → Text
static_objective executive d =
    text
      "Serve as the organization's executive: interface with the principal and deliver their objectives through the department heads you direct."
static_objective head d =
    text "Lead the "
    ++ (department_text d
        ++ text
            " department. Take the objectives your executive hands you and deliver them through the managers and work you organize. Your purpose is fixed — the specific goals arrive as direction from above and the work in flight, not from this statement.")
static_objective manager d =
    text "Run your initiative in the "
    ++ (department_text d
        ++ text
            " department. Turn the requirements your head gives you into completed, verified work through your workers. Your purpose is fixed — the specific work arrives as direction and the tasks you create, not from this statement.")
static_objective worker d =
    text "Execute the tasks assigned to you in the "
    ++ (department_text d
        ++ text
            " department to a high standard, following your manager's specification. Your purpose is fixed — the specific work arrives as the tasks you are assigned, not from this statement.")

-- `STATIC_KPIS`
unfoldable pub static_kpis : Role → List Text
static_kpis executive =
    text "Principal objectives delivered"
    ∷ text "Organizational alignment"
    ∷ text "Delivery success rate"
    ∷ []
static_kpis head =
    text "Department objectives delivered"
    ∷ text "Initiative throughput"
    ∷ text "Quality of delivered outcomes"
    ∷ []
static_kpis manager =
    text "Initiative delivered to spec"
    ∷ text "Task throughput and quality"
    ∷ text "Rework rate kept low"
    ∷ []
static_kpis worker =
    text "Assigned tasks completed and passed review"
    ∷ text "First-pass approval rate"
    ∷ text "Timeliness"
    ∷ []

-- `STATIC_RESPONSIBILITIES`
unfoldable pub static_responsibilities : Role → List Text
static_responsibilities executive =
    text "Interface with the principal"
    ∷ text "Translate principal intent into objectives"
    ∷ text "Delegate to and coordinate department heads"
    ∷ text "Ensure outcomes meet the principal's intent"
    ∷ []
static_responsibilities head =
    text "Turn the executive's objective into initiatives"
    ∷ text "Staff and direct managers"
    ∷ text "Review delivered outcomes against the objective"
    ∷ text "Escalate blockers upward"
    ∷ []
static_responsibilities manager =
    text "Own the specification for the initiative"
    ∷ text "Decompose the work into concrete tasks"
    ∷ text "Staff and direct workers"
    ∷ text "Mark tasks complete on the Auditor's pass and report progress"
    ∷ []
static_responsibilities worker =
    text "Execute assigned tasks to spec"
    ∷ text "Keep task status current"
    ∷ text "Submit completed work for review with real evidence"
    ∷ text "Escalate blockers you cannot resolve"
    ∷ []

-- `BASE_TOOLS`
abbrev pub base_tools : List ToolName
base_tools =
    request_information ∷ escalate_blocker ∷ search_memory ∷ send_message ∷ update_task_status
    ∷ wait_until_response ∷ get_status ∷ []

-- `STAFFING_TOOLS`
abbrev pub staffing_tools : List ToolName
staffing_tools = create_subordinate_agent ∷ base_tools

-- `MANAGEMENT_TOOLS`
abbrev pub management_tools : List ToolName
management_tools = create_and_assign_task ∷ staffing_tools

-- `ROLE_TOOLS`
abbrev pub role_tools : Role → List ToolName
role_tools worker = request_review ∷ web_search ∷ base_tools
role_tools manager = management_tools
role_tools head = staffing_tools
role_tools executive = respond_to_principal ∷ staffing_tools

-- `DEPARTMENT_WORKER_TOOLS`
abbrev pub department_worker_tools : Department → List ToolName
department_worker_tools _ = []

-- `toolNamesFor`
unfoldable pub tool_names_for : Role → Department → List ToolName
tool_names_for r d = role_tools r ++ department_worker_tools d
