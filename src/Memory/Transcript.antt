-- ===== src/Memory/Transcript.antt =====
-- `buildTranscript` of core/services/memory.ts. The final `trim` takes the newlines of the template
-- and what white space the texts have at the ends.
use xevos.Base.{
  ℕ, Bool, true, false, ◌||◌, Option, none, some, List, [], ◌∷◌, ◌++◌, map, keep, not, Text, text,
  join, ◌==◌, nat_eq, if◌then◌else◌, or_else,
}
use mathlib.Core.List.{reverse}
use xevos.Schema.Org.{AgentId}
use xevos.Schema.Task.{Task, ClosedReason}
use xevos.Schema.Memory.{
  Speaker, system, user, assistant, tool, Part, text_part, reasoning, tool_call, tool_result,
  other_part, Content, plain, parts, ModelMessage,
}
use xevos.Schema.Print.{agent_text, task_text, status_text, reason_text, priority_text}

abbrev pub newline : Text
newline = 10 ∷ []

-- The white space that `String.prototype.trim` strips.
abbrev pub is_space : ℕ → Bool
is_space c =
    c == 32
    || c == 9
    || c == 10
    || c == 11
    || c == 12
    || c == 13
    || c == 160
    || c == 5760
    || c == 8232
    || c == 8233
    || c == 8239
    || c == 8287
    || c == 12288
    || c == 65279
    || (c == 8192
        || c == 8193
        || c == 8194
        || c == 8195
        || c == 8196
        || c == 8197
        || c == 8198
        || c == 8199
        || c == 8200
        || c == 8201
        || c == 8202)

unfoldable pub trim_start : Text → Text
trim_start [] = []
trim_start (c ∷ s) = let rest = trim_start s in if is_space c then rest else c ∷ s

unfoldable pub trim : Text → Text
unfolding trim_start
trim s = reverse (trim_start (reverse (trim_start s)))

abbrev speaker_text : Speaker → Text
speaker_text system = text "system"
speaker_text user = text "user"
speaker_text assistant = text "assistant"
speaker_text tool = text "tool"

abbrev is_empty : Text → Bool
is_empty [] = true
is_empty (_ ∷ _) = false

part_text : Part → Text
part_text (text_part t) = t
part_text (reasoning t) = text "[REASONING] " ++ t
part_text (tool_call name _) = text "[TOOL_CALL] " ++ name
part_text (tool_result _ output) = text "[TOOL_RESULT] " ++ output.json
part_text other_part = []

content_text : Content → Text
unfolding part_text
content_text (plain t) = t
content_text (parts ps) = join newline (keep (λ t. not (is_empty t)) (map part_text ps))

message_text : ModelMessage → Text
unfolding content_text
message_text m =
    text "[" ++ (speaker_text m.role ++ (text "]" ++ (newline ++ content_text m.content)))

-- `x.join(", ") || "None"`
abbrev or_none : Text → Text
or_none t = if is_empty t then text "None" else t

abbrev agent_or_unassigned : Option AgentId → Text
agent_or_unassigned none = text "Unassigned"
agent_or_unassigned (some a) = agent_text a

unfoldable pub build_transcript : Task → ClosedReason → Option Text → List ModelMessage → Text
unfolding message_text trim agent_text task_text
build_transcript t reason summary messages = trim (
    join newline (
      []
      ∷ text "[TASK]"
      ∷ (text "Id: " ++ task_text t.id)
      ∷ (text "Title: " ++ t.title)
      ∷ (text "Description: " ++ t.description)
      ∷ (text "Priority: " ++ priority_text t.priority)
      ∷ (text "Status: " ++ status_text t.status)
      ∷ []
      ∷ text "Acceptance Criteria:"
      ∷ join newline (map (λ c. text "- " ++ c) t.acceptance_criteria)
      ∷ []
      ∷ text "Dependencies:"
      ∷ or_none (join (text ", ") (map task_text t.dependencies))
      ∷ []
      ∷ text "Assigned To:"
      ∷ agent_or_unassigned t.assigned_to
      ∷ []
      ∷ text "Closed Reason:"
      ∷ reason_text reason
      ∷ []
      ∷ text "Provided Summary:"
      ∷ or_else summary (text "None")
      ∷ []
      ∷ text "[TRANSCRIPT]"
      ∷ []
      ∷ join (newline ++ newline) (map message_text messages)
      ∷ []
      ∷ []))
