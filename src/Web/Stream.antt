-- ===== src/Web/Stream.antt =====
-- `reducer` of apps/web/lib/use-xevos-stream.ts with its `State` and `Action`, and `Message` of
-- packages/core/src/observer/protocol.ts. The organization's state is sent whole and only stored: its
-- type is a parameter.
use xevos.Base.{
  ℕ, Bool, true, false, Option, none, some, List, [], ◌∷◌, ◌++◌, take, nat_eq, Text, if◌then◌else◌,
}
use xevos.Schema.Org.{EndpointId}
use xevos.Schema.Task.{Task, TaskId}
use xevos.Schema.Event.{EventId, Event}
use xevos.Web.Keys.{reverse, has, replace_first, fresh_for}

pub record Message : Type 0 where
  pub id : EventId
  pub seq : ℕ
  pub ts : ℕ
  pub from : EndpointId
  pub to : EndpointId
  pub outgoing : Bool
  pub content : Text

pub record FeedItem : Type 0 where
  pub seq : ℕ
  pub ts : ℕ
  pub event : Event

pub data ConnectionStatus : Type 0 where
  connecting opened closed : ConnectionStatus

pub record State (OrgState : Type 0) : Type 0 where
  pub status : ConnectionStatus
  pub org : Option OrgState
  pub tasks : List Task
  pub has_more_tasks : Bool
  pub messages : List Message
  pub has_more_messages : Bool
  pub feed : List FeedItem
  pub last_error : Option Text

pub data Action (OrgState : Type 0) : Type 0 where
  status_action : ConnectionStatus → Action OrgState
  org_action : OrgState → Action OrgState
  task_action : Task → Action OrgState
  message_action : Message → Action OrgState
  event_action : FeedItem → Action OrgState
  -- items, hasMore, initial
  tasks_page : List Task → Bool → Bool → Action OrgState
  messages_page : List Message → Bool → Bool → Action OrgState

abbrev pub max_feed : ℕ
max_feed = 500

abbrev pub id_of : Task → TaskId
id_of t = t.id

abbrev pub seq_of : Message → ℕ
seq_of m = m.seq

-- `upsertTask`
abbrev pub upsert_task : List Task → Task → List Task
upsert_task ts t = if has id_of t.id ts then replace_first id_of t ts else t ∷ ts

-- `appendMessage`
abbrev pub append_message : List Message → Message → List Message
append_message ms m = if has seq_of m.seq ms then ms else ms ++ (m ∷ [])

abbrev pub merge_tasks : Bool → List Task → List Task → List Task
merge_tasks true ts items = items
merge_tasks false ts items = ts ++ fresh_for id_of ts items

-- What is already held is filtered out of the page, also where the page replaces it.
abbrev pub merge_messages : Bool → List Message → List Message → List Message
merge_messages true ms items = fresh_for seq_of ms (reverse items)
merge_messages false ms items = fresh_for seq_of ms (reverse items) ++ ms

-- `action.status === "open" ? null : state.lastError`
abbrev error_after : ConnectionStatus → Option Text → Option Text
error_after opened e = none
error_after _ e = e

module _ {OrgState : Type 0} where
  -- `initialState`
  abbrev pub initial_state : State OrgState
  initial_state = record {
    status = connecting;
    org = none;
    tasks = [];
    has_more_tasks = false;
    messages = [];
    has_more_messages = false;
    feed = [];
    last_error = none;
  }

  unfoldable pub reducer : State OrgState → Action OrgState → State OrgState
  reducer s (status_action c) = record s { status = c; last_error = error_after c s.last_error }
  reducer s (org_action o) = record s { org = some o }
  reducer s (task_action t) = record s { tasks = upsert_task s.tasks t }
  reducer s (message_action m) = record s { messages = append_message s.messages m }
  reducer s (event_action i) = record s { feed = take max_feed (i ∷ s.feed) }
  reducer s (tasks_page items more initial) = record s {
    tasks = merge_tasks initial s.tasks items;
    has_more_tasks = more;
  }
  reducer s (messages_page items more initial) = record s {
    messages = merge_messages initial s.messages items;
    has_more_messages = more;
  }

  -- `useReducer`: the actions in the order in which they are dispatched.
  unfoldable pub reduce : State OrgState → List (Action OrgState) → State OrgState
  reduce s [] = s
  reduce s (a ∷ rest) = reduce (reducer s a) rest
