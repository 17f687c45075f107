-- ===== src/Web/Tests.antt =====
-- The reducer on concrete frames and pages.
use xevos.Base.{nat_eq, arith, ◌≡◌, refl, ℕ, true, none, some, List, [], ◌∷◌, text, ℕ_discrete}
use xevos.Schema.Org.{principal, agent, agent_id, executive, organization}
use xevos.Schema.Task.{Task, TaskStatus, assigned, in_progress, normal}
use xevos.Sql.Rows.{get}
use xevos.Web.Stream.{
  Message, Action, id_of, initial_state, reducer, reduce, task_action, message_action,
  messages_page,
}
use xevos.Web.Views.{IsConsistent, reduce-IsConsistent, get-task_action}

abbrev note : ℕ → Message
note n = record {
  id = n;
  seq = n;
  ts = n;
  from = principal;
  to = agent (agent_id executive organization 1);
  outgoing = true;
  content = text "hello";
}

abbrev shown : ℕ → TaskStatus → Task
shown n s = record {
  id = n;
  status = s;
  referce_task = none;
  review = none;
  title = text "build";
  description = text "build it";
  acceptance_criteria = [];
  dependencies = [];
  assigned_to = none;
  priority = normal;
  deadline = none;
  budget = record { max_tokens = 1000; max_usd = 1 };
  created_at = 2;
  updated_at = 2;
}

-- A page, a frame that repeats one of its messages, and the first page again, as after a reconnect.
abbrev frames : List (Action ℕ)
frames =
    messages_page (note 3 ∷ note 2 ∷ []) true true
    ∷ message_action (note 3)
    ∷ task_action (shown 1 assigned)
    ∷ task_action (shown 1 in_progress)
    ∷ []

reduce-IsConsistent_example : IsConsistent (reduce initial_state frames)
reduce-IsConsistent_example =
    reduce-IsConsistent frames ((((λ h. omega (arith, h)), tt), (tt, tt)), (tt, (tt, (tt, tt))))

get-task_action_example :
    get id_of 1
      (reducer (reduce initial_state frames) (task_action (shown 1 TaskStatus.completed))).tasks
    ≡ some (shown 1 TaskStatus.completed)
unfolding ℕ_discrete
get-task_action_example =
    get-task_action (reduce initial_state frames) (shown 1 TaskStatus.completed) 1

-- A reconnect loads the first page again, and what was shown is gone.
reconnect_drops :
    (reduce (initial_state {OrgState = ℕ}) (
      messages_page (note 3 ∷ note 2 ∷ []) true true
      ∷ messages_page (note 3 ∷ note 2 ∷ []) true true
      ∷ [])).messages
    ≡ []
unfolding reduce reducer ℕ_discrete
reconnect_drops = refl
