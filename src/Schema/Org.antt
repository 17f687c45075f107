-- ===== src/Schema/Org.antt =====
-- core/schema/agent.schema.ts and core/schema/event/base-event.ts: roles, departments, agents, and
-- who can be addressed on the bus. An id `${role}_${department}_${n}` is its three parts.
use xevos.Base.{ℕ, ℕ_discrete, List, Text, Eq}

pub data Role : Type 0 where
  executive head manager worker : Role

unfoldable pub Role-discrete : Discrete Role
Role-discrete = hlevel

instance abbrev pub role_eq : Eq Role
role_eq = record { dec = Role-discrete }

pub data Department : Type 0 where
  organization engineering research marketing support sales legal : Department

unfoldable pub Department-discrete : Discrete Department
Department-discrete = hlevel

instance abbrev pub department_eq : Eq Department
department_eq = record { dec = Department-discrete }

pub data AgentStatus : Type 0 where
  active suspended : AgentStatus

unfoldable pub AgentStatus-discrete : Discrete AgentStatus
AgentStatus-discrete = hlevel

instance abbrev pub agent_status_eq : Eq AgentStatus
agent_status_eq = record { dec = AgentStatus-discrete }

-- `${role}_${department}`
pub data RoleDefinitionId : Type 0 where
  definition_of : Role → Department → RoleDefinitionId

-- `${role}_${department}_${n}`
pub data AgentId : Type 0 where
  agent_id : Role → Department → ℕ → AgentId

unfoldable pub AgentId-discrete : Discrete AgentId
AgentId-discrete = hlevel ℕ_discrete

instance abbrev pub agent_id_eq : Eq AgentId
agent_id_eq = record { dec = AgentId-discrete }

-- The `${string}_service` ids that the program declares.
pub data ServiceId : Type 0 where
  tasks_service agent_service auditor_service memory_service : ServiceId
  prompts_service tool_service observer_service : ServiceId

-- Any addressable participant on the bus; also a report target, which is never a service.
pub data EndpointId : Type 0 where
  agent : AgentId → EndpointId
  service : ServiceId → EndpointId
  principal : EndpointId

unfoldable pub EndpointId-discrete : Discrete EndpointId
EndpointId-discrete = hlevel ℕ_discrete

instance abbrev pub endpoint_eq : Eq EndpointId
endpoint_eq = record { dec = EndpointId-discrete }

pub data ReportTargetId : Type 0 where
  to_agent : AgentId → ReportTargetId
  to_principal : ReportTargetId

abbrev pub endpoint_of : ReportTargetId → EndpointId
endpoint_of (to_agent a) = agent a
endpoint_of to_principal = principal

-- The tools that an agent is granted, by name.
pub data ToolName : Type 0 where
  request_information escalate_blocker search_memory send_message update_task_status : ToolName
  wait_until_response get_status create_subordinate_agent create_and_assign_task : ToolName
  request_review web_search respond_to_principal : ToolName
  bash read_file write_file edit_file multi_edit insert list_dir glob grep : ToolName

unfoldable pub ToolName-discrete : Discrete ToolName
ToolName-discrete = hlevel

instance abbrev pub tool_name_eq : Eq ToolName
tool_name_eq = record { dec = ToolName-discrete }

pub record Agent : Type 0 where
  pub id : AgentId
  pub role : Role
  pub department : Department
  pub created_at : ℕ
  pub objective : Text
  pub kpis : List Text
  pub responsibilities : List Text
  pub status : AgentStatus
  pub reports_to : ReportTargetId
  pub manages : List AgentId
  pub tools : List ToolName

pub record AgentCreate : Type 0 where
  pub role : Role
  pub department : Department
  pub objective : Text
  pub kpis : List Text
  pub responsibilities : List Text
  pub reports_to : ReportTargetId
  pub tools : List ToolName
  pub manages : List AgentId
  pub status : AgentStatus
