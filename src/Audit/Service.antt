-- ===== src/Audit/Service.antt =====
-- `AuditService` of core/services/audit.ts: how a request is reviewed and who is told. The containers
-- and the model that judges are what the auditor only calls, so they are parameters; either may throw.
use xevos.Base.{
  ℕ, zero, suc, ◌+◌, ◌*◌, ◌-◌, Bool, true, false, ◌&&◌, Option, none, some, List, [], ◌∷◌, ◌++◌,
  Text, text, leb, ◌==◌, nat_eq, if◌then◌else◌, or_else,
}
use xevos.Schema.Org.{EndpointId, service, auditor_service, endpoint_of}
use xevos.Schema.Task.{Task, TaskId, ReviewVerdict, approved, changes_requested}
use xevos.Schema.Event.{
  Event, EventInput, Body, review_presentation_request, review_presentation_response,
}
use xevos.Schema.Memory.{ModelMessage}
use xevos.Schema.Print.{endpoint_text}
use xevos.Sql.{Sql}
use xevos.Db.{Database, ok, err}
use xevos.Bus.Core.{World, publish}
use xevos.Memory.Transcript.{newline, trim}
use xevos.Tools.Pieces.{split}
use xevos.Tasks.Repository.{get_task}
use xevos.Agents.Repository.{get_agent}
use xevos.Audit.Report.{
  has_submission_turn, render_action_log, is_engineering_worker, build_review_prompt,
}

-- `{ verdict, notes }`
pub record Assessment : Type 0 where
  pub verdict : ReviewVerdict
  pub notes : Text

-- What the run of the model came to.
pub data Judged : Type 0 where
  threw : Judged
  silent : Judged
  recorded : Assessment → Judged

-- The docker containers by name, and the model with its tools on one of them.
pub record Containers : Type 1 where
  pub Docker : Type 0
  pub start : Docker → Text → Bool × Docker
  -- the output of the probe; `none` is an exception
  pub probe : Docker → Text → Option Text × Docker
  pub pause : Docker → Text → Docker
  -- the prompt, and whether the sandbox's tools are given
  pub judge : Docker → Text → Bool → Judged × Docker

-- `ACTION_LOG_POLL_ATTEMPTS`
abbrev pub action_log_poll_attempts : ℕ
action_log_poll_attempts = 6

-- The loop of `loadActionLog`: what the memory holds at each attempt, the attempts left, the number of
-- this one, and what was read last. It returns the messages and the number of reads.
unfoldable pub poll : (ℕ → List ModelMessage) → ℕ → ℕ → List ModelMessage → List ModelMessage × ℕ
poll reads zero k last = (last, k)
poll reads (suc left) k last =
    let rest = poll reads left (suc k) (reads k) in
    if has_submission_turn (reads k) then (reads k, suc k) else rest

-- `loadActionLog`
abbrev pub load_action_log : (ℕ → List ModelMessage) → Text
load_action_log reads = render_action_log (poll reads action_log_poll_attempts 0 []).0

-- The digits of `Number.parseInt`, of which it takes as many as there are; `none` is NaN.
unfoldable pub parse_digits : Option ℕ → Text → Option ℕ
parse_digits acc [] = acc
parse_digits acc (c ∷ t) =
    let n = or_else acc 0 in
    let rest = parse_digits (some (n * 10 + (c - 48))) t in
    if leb 48 c && leb c 57 then rest else acc

-- `Number.parseInt(t, 10)` up to its sign
abbrev pub parse_int : Text → Option ℕ
parse_int [] = none
parse_int (c ∷ t) =
    let unsigned = parse_digits none t in
    let whole = parse_digits none (c ∷ t) in
    if c == 45 then unsigned else if c == 43 then unsigned else whole

abbrev pub first_line : List Text → Text
first_line [] = text "0"
first_line (l ∷ ls) = trim l

abbrev pub is_zero : Option ℕ → Bool
is_zero none = false
is_zero (some n) = n == 0

-- `emptyWorkspace`
unfoldable pub is_empty_workspace : Text → Bool
is_empty_workspace stdout = is_zero (parse_int (first_line (split newline stdout)))

abbrev pub empty_assessment : Assessment
empty_assessment = record {
  verdict = changes_requested;
  notes =
      text
        "The workspace is empty — no source files were produced. The submitted evidence cannot be trusted over an empty sandbox: the task was not actually built. Do the real work in the sandbox, commit it, and resubmit.";
}

abbrev pub no_assessment : Assessment
no_assessment = record {
  verdict = changes_requested;
  notes =
      text
        "The auditor did not return a verdict within the review budget; treat as not yet approved.";
}

-- `captured ?? …`; `none` is the exception that leaves `assess`.
abbrev pub assessment_of : Judged → Option Assessment
assessment_of threw = none
assessment_of silent = some no_assessment
assessment_of (recorded a) = some a

abbrev pub verdict_text : ReviewVerdict → Text
verdict_text approved = text "PASS"
verdict_text changes_requested = text "CHANGES REQUESTED"

-- The response that `review` publishes.
abbrev pub verdict_event : EndpointId → Assessment → Option TaskId → EventInput
verdict_event recipient a task = record {
  source = service auditor_service;
  target = recipient;
  correlation_id = none;
  body = review_presentation_response (verdict_text a.verdict ++ (text ": " ++ a.notes)) task;
}

abbrev pub id_of : Option Task → Option TaskId
id_of none = none
id_of (some t) = some t.id

module _ (c : Containers) where
  -- The sandbox of a coding task: whether it is attached, the output of the probe (the empty text where
  -- there is none), and the containers.
  unfoldable pub inspect : Bool → c.Docker → Text → Bool × Text × c.Docker
  inspect false d name = (false, [], d)
  inspect true d name =
      let (attached, d') = c.start d name in
      if attached
      then (let (output, d'') = c.probe d' name in
          elim output [ none ↦ (true, [], d'') | some t ↦ (true, t, d'') ])
      else (false, [], d')

  -- The verdict of `review`, by `assess` unless the workspace is empty.
  unfoldable pub decide : c.Docker → Bool → Text → Bool → Text → Option Assessment × c.Docker
  decide d coding truth attached prompt =
      if coding && is_empty_workspace truth
      then (some empty_assessment, d)
      else (let (judged, d') = c.judge d prompt attached in (assessment_of judged, d'))

module _ ⦃sql : Sql⦄ (c : Containers) where
  -- `recipient`: the manager of the task's assignee, else the submitter.
  unfoldable pub recipient_of : Database → EndpointId → Option Task → EndpointId
  recipient_of db submitter none = submitter
  recipient_of db submitter (some t) = elim t.assigned_to [
    | none ↦ submitter
    | some a ↦ elim (get_agent db a) [ err _ ↦ submitter | ok b ↦ endpoint_of b.reports_to ]
  ]

  abbrev pub task_of : Database → Option TaskId → Option Task
  task_of db none = none
  task_of db (some id) = get_task db id

  -- The end of `review`: the sandbox is paused, and the verdict is published. An exception of `assess`
  -- skips both.
  unfoldable pub deliver_verdict :
      World → ℕ → EndpointId → Option Task → Bool → Option Assessment → c.Docker → World × c.Docker
  deliver_verdict w now submitter task attached none d = (w, d)
  deliver_verdict w now submitter task attached (some a) d = (
    (publish w now (verdict_event (recipient_of w.db submitter task) a (id_of task))).0,
    if attached then c.pause d (endpoint_text submitter) else d,
  )

  -- `review`; what it throws is logged by the run loop.
  unfoldable pub review :
      World
      → c.Docker
      → ℕ
      → Event
      → Text
      → Option TaskId
      → (ℕ → List ModelMessage)
      → World × c.Docker
  review w d now e summary id reads =
      let task = task_of w.db id in
      let coding = is_engineering_worker (endpoint_text e.source) in
      let (attached, truth, d') = inspect c coding d (endpoint_text e.source) in
      let prompt = build_review_prompt e.source summary task coding truth (load_action_log reads) in
      let (verdict, d'') = decide c d' coding truth attached prompt in
      deliver_verdict w now e.source task attached verdict d''

  -- `handle`
  unfoldable pub handle :
      World → c.Docker → ℕ → Event → Body → (ℕ → List ModelMessage) → World × c.Docker
  handle w d now e (review_presentation_request summary id) reads =
      review w d now e summary id reads
  handle w d now e body reads = (w, d)
