-- ===== src/Schema/Print.antt =====
-- The texts of ids and of the enumerations, as template literals print them.
use xevos.Base.{◌++◌, Text, text, show_number}
use xevos.Schema.Org.{
  Role, executive, head, manager, worker, Department, organization, engineering, research,
  marketing, support, sales, legal, AgentId, agent_id, EndpointId, agent, service, principal,
  ServiceId, tasks_service, agent_service, auditor_service, memory_service, prompts_service,
  tool_service, observer_service,
}
use xevos.Schema.Event.{
  EventId, Topic, agent_topic, task_topic, observation_topic, Body, task_delegation_request,
  task_delegation_response, approval_request, approval_response, information_request,
  information_response, escalation_request, escalation_response, review_presentation_request,
  review_presentation_response, message, agent_creation_request, agent_creation_response,
  agent_suspension_request, agent_suspension_response, agent_resume_request, agent_resume_response,
  agent_termination_request, agent_termination_response, task_create_request, task_create_response,
  task_update_request, task_update_response, task_transition_request, task_transition_response,
  tool_executed,
}
use xevos.Schema.Task.{TaskId, TaskStatus, ClosedReason, TaskPriority, low, normal, high, urgent}

abbrev pub role_text : Role → Text
role_text executive = text "executive"
role_text head = text "head"
role_text manager = text "manager"
role_text worker = text "worker"

abbrev pub department_text : Department → Text
department_text organization = text "organization"
department_text engineering = text "engineering"
department_text research = text "research"
department_text marketing = text "marketing"
department_text support = text "support"
department_text sales = text "sales"
department_text legal = text "legal"

abbrev pub status_text : TaskStatus → Text
status_text TaskStatus.backlog = text "backlog"
status_text TaskStatus.assigned = text "assigned"
status_text TaskStatus.in_progress = text "in_progress"
status_text TaskStatus.blocked = text "blocked"
status_text TaskStatus.in_review = text "in_review"
status_text TaskStatus.completed = text "completed"
status_text TaskStatus.failed = text "failed"
status_text TaskStatus.cancelled = text "cancelled"

abbrev pub reason_text : ClosedReason → Text
reason_text ClosedReason.completed = text "completed"
reason_text ClosedReason.failed = text "failed"
reason_text ClosedReason.cancelled = text "cancelled"

abbrev pub priority_text : TaskPriority → Text
priority_text low = text "low"
priority_text normal = text "normal"
priority_text high = text "high"
priority_text urgent = text "urgent"

-- `task_${n}`
unfoldable pub task_text : TaskId → Text
unfolding show_number
task_text n = text "task_" ++ show_number n

-- `${role}_${department}_${n}`
unfoldable pub agent_text : AgentId → Text
unfolding show_number
agent_text (agent_id r d n) =
    role_text r ++ (text "_" ++ (department_text d ++ (text "_" ++ show_number n)))

abbrev pub service_text : ServiceId → Text
service_text tasks_service = text "tasks_service"
service_text agent_service = text "agent_service"
service_text auditor_service = text "auditor_service"
service_text memory_service = text "memory_service"
service_text prompts_service = text "prompts_service"
service_text tool_service = text "tool_service"
service_text observer_service = text "observer_service"

unfoldable pub endpoint_text : EndpointId → Text
unfolding agent_text
endpoint_text (agent a) = agent_text a
endpoint_text (service s) = service_text s
endpoint_text principal = text "principal"

-- `event_${n}`
unfoldable pub event_text : EventId → Text
unfolding show_number
event_text n = text "event_" ++ show_number n

abbrev pub topic_text : Topic → Text
topic_text agent_topic = text "agent"
topic_text task_topic = text "task"
topic_text observation_topic = text "observation"

-- `event.type`
abbrev pub type_text : Body → Text
type_text (task_delegation_request _) = text "task_delegation_request"
type_text (task_delegation_response _ _ _) = text "task_delegation_response"
type_text (approval_request _ _) = text "approval_request"
type_text (approval_response _ _) = text "approval_response"
type_text (information_request _) = text "information_request"
type_text (information_response _) = text "information_response"
type_text (escalation_request _ _) = text "escalation_request"
type_text (escalation_response _ _) = text "escalation_response"
type_text (review_presentation_request _ _) = text "review_presentation_request"
type_text (review_presentation_response _ _) = text "review_presentation_response"
type_text (message _) = text "message"
type_text (agent_creation_request _) = text "agent_creation_request"
type_text (agent_creation_response _ _ _) = text "agent_creation_response"
type_text (agent_suspension_request _ _) = text "agent_suspension_request"
type_text (agent_suspension_response _ _) = text "agent_suspension_response"
type_text (agent_resume_request _) = text "agent_resume_request"
type_text (agent_resume_response _ _) = text "agent_resume_response"
type_text (agent_termination_request _ _) = text "agent_termination_request"
type_text (agent_termination_response _ _) = text "agent_termination_response"
type_text (task_create_request _) = text "task_create_request"
type_text (task_create_response _ _ _) = text "task_create_response"
type_text (task_update_request _ _) = text "task_update_request"
type_text (task_update_response _ _) = text "task_update_response"
type_text (task_transition_request _ _ _) = text "task_transition_request"
type_text (task_transition_response _ _) = text "task_transition_response"
type_text (tool_executed _ _ _ _ _) = text "tool_executed"
