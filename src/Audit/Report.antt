-- ===== src/Audit/Report.antt =====
-- What the auditor of core/services/audit.ts reads and writes: the log of a submitter's actions, whose
-- id owns a sandbox, and the text that asks for a review.
use xevos.Base.{
  ℕ, ◌-◌, Bool, true, false, ◌&&◌, Option, none, some, List, [], ◌∷◌, ◌++◌, map, any, take, drop,
  length, ltb, Text, text, text_eq, join, ◌==◌, if◌then◌else◌,
}
use xevos.Schema.Org.{EndpointId}
use xevos.Schema.Task.{Task}
use xevos.Schema.Memory.{Payload, Part, tool_call, tool_result, Content, plain, parts, ModelMessage}
use xevos.Schema.Print.{task_text, endpoint_text}
use xevos.Tools.Pieces.{split}
use xevos.Memory.Transcript.{newline, trim}

-- `MAX_RESULT_CHARS`
abbrev pub max_result_chars : ℕ
max_result_chars = 3000

-- `MAX_ACTION_LOG_CHARS`
abbrev pub max_action_log_chars : ℕ
max_action_log_chars = 24000

-- `typeof value === "string" ? value : JSON.stringify(value)`
abbrev pub payload_text : Payload → Text
payload_text p = elim p.string [ none ↦ p.json | some t ↦ t ]

abbrev pub clip_text : Text → Text
clip_text t =
    if ltb max_result_chars (length t) then take max_result_chars t ++ text "… [truncated]" else t

-- `clipResult`
abbrev pub clip_result : Payload → Text
clip_result p = clip_text (payload_text p)

-- The lines of one part of a message.
abbrev pub part_lines : Part → List Text
part_lines (tool_call name input) =
    (text "CALL " ++ (name ++ (text "(" ++ (clip_result input ++ text ")")))) ∷ []
part_lines (tool_result name output) =
    (text "  → RESULT " ++ (name ++ (text ": " ++ clip_result output))) ∷ []
part_lines _ = []

unfoldable pub lines_of_parts : List Part → List Text
lines_of_parts [] = []
lines_of_parts (p ∷ ps) = part_lines p ++ lines_of_parts ps

abbrev pub lines_of_content : Content → List Text
lines_of_content (plain _) = []
lines_of_content (parts ps) = lines_of_parts ps

unfoldable pub action_lines : List ModelMessage → List Text
action_lines [] = []
action_lines (m ∷ ms) = lines_of_content m.content ++ action_lines ms

-- The most recent characters of a log: `log.slice(-MAX_ACTION_LOG_CHARS)`.
unfoldable pub clip_log : Text → Text
clip_log log =
    if ltb max_action_log_chars (length log)
    then text "… [earlier actions truncated]"
      ++ (newline ++ drop (length log - max_action_log_chars) log)
    else log

-- `renderActionLog`
abbrev pub render_action_log : List ModelMessage → Text
render_action_log ms = clip_log (join newline (action_lines ms))

abbrev is_submission : Part → Bool
is_submission (tool_call name _) = name == text "request_review"
is_submission _ = false

abbrev has_submission : Content → Bool
has_submission (plain _) = false
has_submission (parts ps) = any is_submission ps

-- `hasSubmissionTurn`
unfoldable pub has_submission_turn : List ModelMessage → Bool
has_submission_turn ms = any (λ m. has_submission m.content) ms

abbrev pub is_worker_parts : List Text → Bool
is_worker_parts (role ∷ department ∷ n ∷ []) =
    role == text "worker" && department == text "engineering"
is_worker_parts _ = false

-- `isEngineeringWorker`
unfoldable pub is_engineering_worker : Text → Bool
is_engineering_worker id = is_worker_parts (split (text "_") id)

-- `x || fallback` on a text
abbrev pub or_text : Text → Text → Text
or_text [] fallback = fallback
or_text (c ∷ t) fallback = c ∷ t

-- The lines on the task, where there is one.
abbrev pub task_lines : Option Task → List Text
task_lines none = []
task_lines (some t) =
    []
    ∷ text "Task description:"
    ∷ t.description
    ∷ []
    ∷ text "Acceptance criteria:"
    ∷ or_text (join newline (map (λ c. text "- " ++ c) t.acceptance_criteria))
        (text "- (none specified)")
    ∷ []

abbrev pub truth_lines : Text → List Text
truth_lines [] = []
truth_lines (c ∷ truth) =
    []
    ∷ text
        "Actual current state of the workspace, read directly from the container (GROUND TRUTH — trust this over the summary; if it contradicts the evidence, the evidence is fabricated):"
    ∷ text "```"
    ∷ (c ∷ truth)
    ∷ text "```"
    ∷ []

abbrev pub coding_lines : Bool → Text → List Text
coding_lines false truth = []
coding_lines true truth =
    []
    ∷ text
        "This is a CODING task. You have sandbox tools (bash, read_file, list_dir, glob, grep, …) attached to the submitter's workspace at /workspace. Inspect the code and re-run the build/tests yourself before deciding. Inspect only — do not modify their work."
    ∷ truth_lines (trim truth)

abbrev pub subject_text : Option Task → Text
subject_text none = []
subject_text (some t) =
    text " on task " ++ (task_text t.id ++ (text ": \"" ++ (t.title ++ text "\"")))

-- `buildReviewPrompt`, from the source and the summary of the request
unfoldable pub build_review_prompt : EndpointId → Text → Option Task → Bool → Text → Text → Text
build_review_prompt source summary task coding truth log = join newline (
    ((endpoint_text source
        ++ (text " has submitted work for your review" ++ (subject_text task ++ text ".")))
      ∷ []
      ∷ text "Their summary and evidence:"
      ∷ summary
      ∷ [])
    ++ (task_lines task
        ++ (([]
              ∷ text
                  "ACTION LOG — the submitter's actual tool calls and the real results they returned (GROUND TRUTH; trust this over the summary):"
              ∷ text "```"
              ∷ or_text (trim log)
                  (text "(the submitter recorded no tool calls — it produced no verifiable work)")
              ∷ text "```"
              ∷ []
              ∷ text
                  "Cross-check the submission against this log. Every claimed source, figure, or result MUST trace to a real tool result above. A claim with no backing action — e.g. cited sources that were never actually retrieved by web_search, or output never produced — is fabricated: request changes. If the task needed real work (a search, a build) and the log shows none, fail it."
              ∷ [])
            ++ (coding_lines coding truth
                ++ ([] ∷ text "When done, call record_verdict with your decision." ∷ [])))))
