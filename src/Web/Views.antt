-- ===== src/Web/Views.antt =====
-- What the client shows under any sequence of frames and pages: no task and no message twice, a bounded
-- feed, and the newest version of a task.
use xevos.Base.{
  ◌≡◌, ◌≤◌, sym, subst, Bool, true, false, Bool-cases, some, List, [], ◌∷◌, ◌++◌, All, length,
  length-take, nat_eq, ◌==◌, arith, inl, inr, if◌then◌else◌,
}
use xevos.Schema.Task.{Task, TaskId}
use xevos.Sql.Rows.{Unique, get}
use xevos.Web.Keys.{
  reverse, has, has-All, replace_first, fresh_for, fresh_All, fresh_sym, append-Unique, keep-Unique,
  reverse-Unique, replace-Unique, get-replace_first,
}
use xevos.Web.Stream.{
  Message, State, Action, max_feed, id_of, seq_of, upsert_task, append_message, merge_tasks,
  merge_messages, initial_state, reducer, reduce, status_action, org_action, task_action,
  message_action, event_action, tasks_page, messages_page,
}

upsert_old :
    (ts : List Task) (t : Task)
    → has id_of t.id ts ≡ true
    → upsert_task ts t ≡ replace_first id_of t ts
upsert_old ts t h = ground (arith, h)

upsert_new : (ts : List Task) (t : Task) → has id_of t.id ts ≡ false → upsert_task ts t ≡ t ∷ ts
upsert_new ts t h = ground (arith, h)

append_old :
    (ms : List Message) (m : Message) → has seq_of m.seq ms ≡ true → append_message ms m ≡ ms
append_old ms m h = ground (arith, h)

append_new :
    (ms : List Message) (m : Message)
    → has seq_of m.seq ms ≡ false
    → append_message ms m ≡ ms ++ (m ∷ [])
append_new ms m h = ground (arith, h)

upsert-Unique : (ts : List Task) (t : Task) → Unique id_of ts → Unique id_of (upsert_task ts t)
upsert-Unique ts t h = elim (Bool-cases (has id_of t.id ts)) [
  | inl e ↦ subst (Unique id_of) (sym (upsert_old ts t e)) (replace-Unique id_of t ts h)
  | inr e ↦ subst (Unique id_of) (sym (upsert_new ts t e)) (has-All id_of t.id ts e, h)
]

append_message-Unique :
    (ms : List Message) (m : Message) → Unique seq_of ms → Unique seq_of (append_message ms m)
append_message-Unique ms m h = elim (Bool-cases (has seq_of m.seq ms)) [
  | inl e ↦ subst (Unique seq_of) (sym (append_old ms m e)) h
  | inr e ↦
      subst (Unique seq_of) (sym (append_new ms m e))
        (append-Unique seq_of ms (m ∷ []) h (tt, tt) (e, tt))
]

merge_tasks-Unique :
    (initial : Bool) (ts items : List Task)
    → Unique id_of ts
    → Unique id_of items
    → Unique id_of (merge_tasks initial ts items)
merge_tasks-Unique true ts items h k = k
merge_tasks-Unique false ts items h k =
    append-Unique id_of ts (fresh_for id_of ts items) h (keep-Unique id_of _ items k)
      (fresh_All id_of ts items)

merge_messages-Unique :
    (initial : Bool) (ms items : List Message)
    → Unique seq_of ms
    → Unique seq_of items
    → Unique seq_of (merge_messages initial ms items)
merge_messages-Unique true ms items h k =
    keep-Unique seq_of _ (reverse items) (reverse-Unique seq_of items k)
merge_messages-Unique false ms items h k =
    append-Unique seq_of (fresh_for seq_of ms (reverse items)) ms
      (keep-Unique seq_of _ (reverse items) (reverse-Unique seq_of items k)) h
      (fresh_sym seq_of ms (reverse items))

module _ {OrgState : Type 0} where
  pub record IsConsistent (s : State OrgState) : Type 0 where
    pub tasks : Unique id_of s.tasks
    pub messages : Unique seq_of s.messages
    pub feed : length s.feed ≤ max_feed

  -- The pages that the server sends hold no row twice.
  abbrev pub IsPage : Action OrgState → Type 0
  IsPage (tasks_page items _ _) = Unique id_of items
  IsPage (messages_page items _ _) = Unique seq_of items
  IsPage _ = Unit

  reducer-IsConsistent :
      (s : State OrgState) (a : Action OrgState)
      → IsConsistent s
      → IsPage a
      → IsConsistent (reducer s a)
  unfolding reducer
  reducer-IsConsistent s (status_action c) v p = record {
    tasks = v.tasks;
    messages = v.messages;
    feed = v.feed;
  }
  reducer-IsConsistent s (org_action o) v p = record {
    tasks = v.tasks;
    messages = v.messages;
    feed = v.feed;
  }
  reducer-IsConsistent s (task_action t) v p = record {
    tasks = upsert-Unique s.tasks t v.tasks;
    messages = v.messages;
    feed = v.feed;
  }
  reducer-IsConsistent s (message_action m) v p = record {
    tasks = v.tasks;
    messages = append_message-Unique s.messages m v.messages;
    feed = v.feed;
  }
  reducer-IsConsistent s (event_action i) v p = record {
    tasks = v.tasks;
    messages = v.messages;
    feed = omega (arith, length-take max_feed (i ∷ s.feed));
  }
  reducer-IsConsistent s (tasks_page items more initial) v p = record {
    tasks = merge_tasks-Unique initial s.tasks items v.tasks p;
    messages = v.messages;
    feed = v.feed;
  }
  reducer-IsConsistent s (messages_page items more initial) v p = record {
    tasks = v.tasks;
    messages = merge_messages-Unique initial s.messages items v.messages p;
    feed = v.feed;
  }

  reduce-keeps :
      (s : State OrgState) (actions : List (Action OrgState))
      → IsConsistent s
      → All IsPage actions
      → IsConsistent (reduce s actions)
  unfolding reduce
  reduce-keeps s [] v h = v
  reduce-keeps s (a ∷ rest) v h =
      reduce-keeps (reducer s a) rest (reducer-IsConsistent s a v h.0) h.1

  -- From the initial state, whatever frames and pages arrive, no two tasks of one id and no two
  -- messages of one sequence number are held, and the feed has at most 500 items, as long as no page
  -- has a row twice.
  pub reduce-IsConsistent :
      (actions : List (Action OrgState))
      → All IsPage actions
      → IsConsistent (reduce initial_state actions)
  reduce-IsConsistent actions h =
      reduce-keeps initial_state actions (record { tasks = tt; messages = tt; feed = omega arith })
        h

  -- After the frame of a task that is new or known, that task reads as the frame says, and every other
  -- task as before.
  pub get-task_action :
      (s : State OrgState) (t : Task) (j : TaskId)
      → get id_of j (reducer s (task_action t)).tasks
        ≡ (if t.id == j then some t else get id_of j s.tasks)
  unfolding reducer
  get-task_action s t j = elim (Bool-cases (has id_of t.id s.tasks)) [
    | inl e ↦ ground (arith, e, get-replace_first id_of j t s.tasks)
    | inr e ↦ ground (arith, e)
  ]
