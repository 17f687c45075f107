-- ===== src/Schema/Reasons.antt =====
-- The texts of the reasons that core/services/task.ts, core/services/agent.ts and the repositories give.
use xevos.Base.{◌++◌, Text, text}
use xevos.Schema.Event.{
  Reason, task_not_found, illegal_transition, only_manager_completes, note_text, requires_assignee,
  agent_not_found, constraint_violation, external_error, unknown_creator, leaf_role, org_size_limit,
  direct_reports_limit, depth_limit, department_required,
}
use xevos.Schema.Json.{Json}
use xevos.Schema.Print.{role_text, status_text, task_text, agent_text, endpoint_text}

unfoldable pub message_of : Json → Reason → Text
message_of json (task_not_found id) = text "task " ++ (task_text id ++ text " not found")
message_of json (illegal_transition from to) =
    text "illegal transition " ++ (status_text from ++ (text " → " ++ status_text to))
message_of json only_manager_completes = text "only the task's manager may mark it completed"
message_of json (note_text t) = t
message_of json requires_assignee = text "create_and_assign_task requires an assignedTo agent"
message_of json (agent_not_found a) = text "Agent \"" ++ (agent_text a ++ text "\" not found")
message_of json constraint_violation = json.database_error
message_of json external_error = json.service_error
message_of json (unknown_creator e) = text "unknown creator " ++ endpoint_text e
message_of json (leaf_role r) =
    role_text r ++ text " agents are leaves and do not spawn subordinates"
message_of json org_size_limit = text "organization has reached its size limit (40 agents)"
message_of json (direct_reports_limit a) =
    agent_text a
    ++ text " already has 8 direct reports; delegate through them rather than adding more"
message_of json depth_limit =
    text
      "max org depth (3) reached; this work must be delegated to an existing agent, not nested deeper"
message_of json department_required =
    text "the executive must specify the department for the new head"
