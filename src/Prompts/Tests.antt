-- ===== src/Prompts/Tests.antt =====
-- A manager with one worker, before and after the worker is deleted; and a table of one edited prompt.
use xevos.Base.{none, some, ◌≡◌, refl, [], ◌∷◌, text, ℕ_discrete}
use xevos.Schema.Org.{
  Agent, agent_id, manager, worker, head, research, to_agent, active, AgentId-discrete,
}
use xevos.Schema.Event.{Reason}
use xevos.Sql.InMemory.{list_sql}
use xevos.Db.{PromptRow, PromptKey-discrete, prompt_key_eq, role_key, department_key, Database, err}
use xevos.Agents.Repository.{delete_agent}
use xevos.Prompts.Repository.{Prompts, Synced, save, save-Synced, create, get_agent_prompt}
use xevos.Prompts.Cache.{get_agent_prompt-create}
use xevos.Prompts.Service.{system_prompt}
use xevos.Prompts.Roster.{deleted_breaks_prompt}

abbrev hand : Agent
hand = record {
  id = agent_id worker research 1;
  role = worker;
  department = research;
  created_at = 2;
  objective = text "work";
  kpis = [];
  responsibilities = [];
  status = active;
  reports_to = to_agent (agent_id manager research 1);
  manages = [];
  tools = [];
}

abbrev boss : Agent
boss = record hand {
  id = agent_id manager research 1;
  role = manager;
  reports_to = to_agent (agent_id head research 1);
  manages = agent_id worker research 1 ∷ [];
}

abbrev db : Database
db = record {
  agents = boss ∷ hand ∷ [];
  tasks = [];
  memories = [];
  warehouse = [];
  vectors = [];
  prompts = [];
  events = [];
  inbox = [];
  counters = [];
}

deleted_breaks_prompt_example :
    (why : Reason) × (system_prompt (delete_agent db hand.id).1 (text "lead") (text "find out") boss
      ≡ err why)
unfolding AgentId-discrete ℕ_discrete
deleted_breaks_prompt_example =
    deleted_breaks_prompt db (text "lead") (text "find out") boss hand.id refl

abbrev edited : PromptRow
edited = record { key = role_key manager; content = text "lead well"; updated_at = 3 }

abbrev default_row : PromptRow
default_row = record { key = role_key manager; content = text "lead"; updated_at = 9 }

abbrev empty : Prompts
empty = record { table = []; cache = λ _. none }

save-Synced_example : Synced (save empty 4 (role_key worker) (text "work"))
save-Synced_example = save-Synced empty 4 (role_key worker) (text "work") (λ k. refl)

abbrev research_row : PromptRow
research_row = record { key = department_key research; content = text "find out"; updated_at = 9 }

get_agent_prompt-create_example :
    Synced (create (edited ∷ []) (default_row ∷ research_row ∷ []))
    × (get_agent_prompt (create (edited ∷ []) (default_row ∷ research_row ∷ [])) manager research
        ≡ some (text "lead well", text "find out"))
unfolding PromptKey-discrete
get_agent_prompt-create_example =
    get_agent_prompt-create (edited ∷ []) (default_row ∷ research_row ∷ []) manager research 108 102
      (text "ead well") (text "ind out") (refl, tt) refl refl
