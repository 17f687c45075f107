-- ===== src/Observer/Server.antt =====
-- observer/ws-server.ts: what connected clients are sent, and what they and HTTP requests may ask. The
-- sockets are identities with whether they are open; the timer of the flush is whether one is set.
use xevos.Base.{
  ℕ, suc, min, max, Bool, true, false, not, ◌||◌, Option, none, some, List, [], ◌∷◌, ◌++◌, map,
  keep, length, ltb, ◌==◌, nat_eq, Text, text_eq, if◌then◌else◌,
}
use xevos.Schema.Org.{AgentId, Agent, endpoint_eq, principal}
use xevos.Schema.Task.{Task}
use xevos.Schema.Event.{Event, message}
use xevos.Sql.{Sql}
use xevos.Db.{Database}
use xevos.Bus.Core.{World}
use xevos.Agents.Repository.{list_agents}
use xevos.Memory.Transcript.{trim}
use xevos.Principal.{send}
use xevos.Observer.Page.{Page}
use xevos.Observer.Queries.{
  OrgStats, build_org_stats, tasks_changed_since, content_of, page_tasks, page_messages,
}
use xevos.Web.Stream.{Message}

-- `OrgState`; the prompts are carried as they are.
pub record OrgState (Prompts : Type 0) : Type 0 where
  pub captured_at : ℕ
  pub agents : List Agent
  pub prompts : Prompts
  pub stats : OrgStats

-- `ServerFrame`, without the version and the time that `frame` adds
pub data Frame (Prompts : Type 0) : Type 0 where
  org_frame : OrgState Prompts → Frame Prompts
  task_frame : Task → Frame Prompts
  message_frame : Message → Frame Prompts
  event_frame : ℕ → Event → Frame Prompts

-- `isPrincipalMessage`
abbrev pub is_principal_message : Event → Bool
is_principal_message e = elim e.body [
  | message _ ↦ e.source == principal || e.target == principal
  | _ ↦ false
]

-- `messageFromEvent`; the number in an event's id is its sequence.
abbrev pub message_from_event : ℕ → Event → Message
message_from_event now e = record {
  id = e.id;
  seq = e.id;
  ts = now;
  from = e.source;
  to = e.target;
  outgoing = e.source == principal;
  content = content_of e.body;
}

pub record Server (Prompts : Type 0) : Type 0 where
  -- the sockets, with `readyState === OPEN`
  pub clients : List (ℕ × Bool)
  pub sent : List (ℕ × Frame Prompts)
  pub task_watermark : ℕ
  pub flush_scheduled : Bool

module _ {Prompts : Type 0} where
  -- `broadcast`
  abbrev pub broadcast : Server Prompts → Frame Prompts → Server Prompts
  broadcast s f = record s { sent = s.sent ++ map (λ c. (c.0, f)) (keep (λ c. c.1) s.clients) }

  -- The body of the loop of `flush`.
  unfoldable pub push_task : Server Prompts → Task → Server Prompts
  push_task s t =
      let s' = broadcast s (task_frame t) in
      record s' {
        task_watermark =
            if ltb s'.task_watermark t.updated_at then t.updated_at else s'.task_watermark;
      }

  unfoldable pub push_tasks : Server Prompts → List Task → Server Prompts
  push_tasks s [] = s
  push_tasks s (t ∷ ts) = push_tasks (push_task s t) ts

  -- The observer that the server taps the bus with.
  unfoldable pub observe : Server Prompts → ℕ → Event → Server Prompts
  observe s now e =
      let s' = broadcast s (event_frame e.id e) in
      let s'' =
        if is_principal_message e
        then broadcast s' (message_frame (message_from_event now e))
        else s' in
      record s'' { flush_scheduled = true }

  -- `socket.on("close")` and `socket.on("error")`
  unfoldable pub leave : Server Prompts → ℕ → Server Prompts
  leave s socket = record s { clients = keep (λ c. not (c.0 == socket)) s.clients }

-- The highest time of the tasks: `SELECT max(updated_at)`, 0 where there is none.
abbrev pub top_updated : List Task → ℕ
top_updated [] = 0
top_updated (t ∷ ts) = max t.updated_at (top_updated ts)

module _ ⦃sql : Sql⦄ {Prompts : Type 0} where
  -- `buildOrgState`
  unfoldable pub build_org_state : Database → Prompts → ℕ → OrgState Prompts
  build_org_state db prompts now = record {
    captured_at = now;
    agents = list_agents db;
    prompts = prompts;
    stats = build_org_stats db;
  }

  -- The state when the server starts.
  unfoldable pub start : Database → Server Prompts
  start db = record {
    clients = [];
    sent = [];
    task_watermark = top_updated (sql.rows db.tasks);
    flush_scheduled = false;
  }

  -- `flush`, when its timer fires
  unfoldable pub flush : Server Prompts → Database → Prompts → ℕ → Server Prompts
  unfolding push_tasks
  flush s db prompts now =
      let s' =
        broadcast (record s { flush_scheduled = false })
          (org_frame (build_org_state db prompts now)) in
      push_tasks s' (tasks_changed_since db s'.task_watermark)

  -- `wss.on("connection")`: the socket joins, and is sent the state of the organization.
  unfoldable pub connect : Server Prompts → Database → Prompts → ℕ → ℕ → Server Prompts
  connect s db prompts now socket = record s {
    clients = s.clients ++ ((socket, true) ∷ []);
    sent = s.sent ++ ((socket, org_frame (build_org_state db prompts now)) ∷ []);
  }

module _ ⦃sql : Sql⦄ where
  abbrev pub send_content : World → ℕ → AgentId → Text → World
  send_content w now executive [] = w
  send_content w now executive (c ∷ t) = (send w now executive (c ∷ t)).0

  -- `socket.on("message")` with `Principal.send`; `none` is what `parseClientFrame` refuses.
  unfoldable pub receive_frame : World → ℕ → AgentId → Option Text → World
  receive_frame w now executive none = w
  receive_frame w now executive (some content) = send_content w now executive (trim content)

-- `Number(…)` of a query parameter: not finite, not above 0, or its floor and whether it is whole.
pub data Numeric : Type 0 where
  not_finite not_positive : Numeric
  positive : (floor : ℕ) (whole : Bool) → Numeric

-- `parseLimit`
abbrev pub parse_limit : Numeric → ℕ
parse_limit (positive floor whole) = min floor 200
parse_limit _ = 50

-- `parseBefore`, as the least number that no row before the cursor reaches; the parameter may be absent.
abbrev pub parse_before : Option Numeric → Option ℕ
parse_before none = none
parse_before (some not_finite) = none
parse_before (some not_positive) = some 0
parse_before (some (positive floor whole)) = some (if whole then floor else suc floor)

pub data Route : Type 0 where
  health org tasks messages elsewhere : Route

-- What `sendJson` is given.
pub data Response (Prompts : Type 0) : Type 0 where
  method_not_allowed not_found internal_error : Response Prompts
  healthy : (clients : ℕ) → Response Prompts
  org_response : OrgState Prompts → Response Prompts
  tasks_response : Page Task → Response Prompts
  messages_response : Page Message → Response Prompts

module _ ⦃sql : Sql⦄ {Prompts : Type 0} (rowid : Task → ℕ) where
  abbrev pub tasks_or_error : Option (Page Task) → Response Prompts
  tasks_or_error none = internal_error
  tasks_or_error (some p) = tasks_response p

  abbrev pub messages_or_error : Option (Page Message) → Response Prompts
  messages_or_error none = internal_error
  messages_or_error (some p) = messages_response p

  -- `handleHttp`: whether the method is GET, the path, and the two parameters
  unfoldable pub handle_http :
      Server Prompts
      → Database
      → Prompts
      → ℕ
      → Bool
      → Route
      → Option Numeric
      → Numeric
      → Response Prompts
  handle_http s db prompts now false route before limit = method_not_allowed
  handle_http s db prompts now true health before limit = healthy (length s.clients)
  handle_http s db prompts now true org before limit = org_response (build_org_state db prompts now)
  handle_http s db prompts now true tasks before limit =
      tasks_or_error (page_tasks rowid db (parse_before before) (parse_limit limit))
  handle_http s db prompts now true messages before limit =
      messages_or_error (page_messages db (parse_before before) (parse_limit limit))
  handle_http s db prompts now true elsewhere before limit = not_found
