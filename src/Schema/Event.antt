-- ===== src/Schema/Event.antt =====
-- core/schema/event: what travels on the bus. An event id `event_${n}` is its number. The reasons
-- that responses carry are one constructor for each text that the services produce.
use xevos.Base.{ℕ, Bool, Option, Text}
use xevos.Schema.Org.{Role, AgentId, AgentCreate, EndpointId, ToolName}
use xevos.Schema.Task.{TaskId, TaskStatus, TaskCreate, TaskPatch}

abbrev pub EventId : Type 0
EventId = ℕ

-- The texts of `reason` and of the errors that are turned into one.
pub data Reason : Type 0 where
  task_not_found : TaskId → Reason
  illegal_transition : TaskStatus → TaskStatus → Reason
  only_manager_completes : Reason
  note_text : Text → Reason
  requires_assignee : Reason
  agent_not_found : AgentId → Reason
  constraint_violation : Reason
  external_error : Reason
  unknown_creator : EndpointId → Reason
  leaf_role : Role → Reason
  org_size_limit : Reason
  direct_reports_limit : AgentId → Reason
  depth_limit : Reason
  department_required : Reason

pub data Topic : Type 0 where
  agent_topic task_topic observation_topic : Topic

-- `topic`, `type` and `body` together.
pub data Body : Type 0 where
  task_delegation_request : TaskId → Body
  task_delegation_response : TaskId → Bool → Option Text → Body
  approval_request : Text → Text → Body
  approval_response : Bool → Option Text → Body
  information_request : Text → Body
  information_response : Text → Body
  escalation_request : Text → Option TaskId → Body
  escalation_response : Text → Option TaskId → Body
  review_presentation_request : Text → Option TaskId → Body
  review_presentation_response : Text → Option TaskId → Body
  message : Text → Body
  agent_creation_request : AgentCreate → Body
  agent_creation_response : Bool → Option AgentId → Option Reason → Body
  agent_suspension_request : AgentId → Text → Body
  agent_suspension_response : Bool → Option Reason → Body
  agent_resume_request : AgentId → Body
  agent_resume_response : Bool → Option Reason → Body
  agent_termination_request : AgentId → Text → Body
  agent_termination_response : Bool → Option Reason → Body
  task_create_request : TaskCreate → Body
  task_create_response : Option TaskId → Bool → Option Reason → Body
  task_update_request : TaskId → TaskPatch → Body
  task_update_response : Bool → Option Reason → Body
  task_transition_request : TaskId → TaskStatus → Option Text → Body
  task_transition_response : Bool → Option Reason → Body
  tool_executed : AgentId → ToolName → Option Text → Bool → Text → Body

abbrev pub topic_of : Body → Topic
topic_of (tool_executed _ _ _ _ _) = observation_topic
topic_of (task_create_request _) = task_topic
topic_of (task_create_response _ _ _) = task_topic
topic_of (task_update_request _ _) = task_topic
topic_of (task_update_response _ _) = task_topic
topic_of (task_transition_request _ _ _) = task_topic
topic_of (task_transition_response _ _) = task_topic
topic_of _ = agent_topic

pub record Event : Type 0 where
  pub id : EventId
  pub source : EndpointId
  pub target : EndpointId
  pub correlation_id : Option EventId
  pub body : Body

-- `Omit<Event, "id">`
pub record EventInput : Type 0 where
  pub source : EndpointId
  pub target : EndpointId
  pub correlation_id : Option EventId
  pub body : Body
