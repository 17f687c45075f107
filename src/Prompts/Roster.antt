-- ===== src/Prompts/Roster.antt =====
-- When the system prompt of an agent can be built: what a termination does to its manager.
use xevos.Base.{
  join, ◌≡◌, refl, ◌∙◌, Bool, true, false, none, List, [], ◌∷◌, any, All, ◌==◌, Text, arith, inl,
  inr, ==_refl,
}
use xevos.Schema.Org.{AgentId, agent_id_eq, Agent}
use xevos.Schema.Event.{Reason}
use xevos.Sql.{Sql}
use xevos.Sql.Rows.{by_key, get, get-drop_where}
use xevos.Db.{Database, ok, err, Result-cases}
use xevos.Agents.Repository.{agent_key, get_agent, delete_agent}
use xevos.Schema.Print.{agent_text}
use xevos.Prompts.Service.{managed_ids, sections, system_prompt}

module _ ⦃sql : Sql⦄ where
  -- Whether an agent is on file.
  abbrev pub on_file : Database → AgentId → Bool
  on_file db m = elim (get_agent db m) [ ok _ ↦ true | err _ ↦ false ]

  managed_ids_ok :
      (db : Database) (ms : List AgentId)
      → All (λ m. on_file db m ≡ true) ms
      → (ts : List Text) × (managed_ids db ms ≡ ok ts)
  unfolding managed_ids
  managed_ids_ok db [] h = ([], refl)
  managed_ids_ok db (m ∷ ms) h =
      let (ts, e) = managed_ids_ok db ms h.1 in
      elim (Result-cases (get_agent db m)) [
        | inl (b, f) ↦ (agent_text b.id ∷ ts, ground (arith, e, f))
        | inr (x, f) ↦ absurd (ground (arith, f, h.0))
      ]

  managed_ids_missing :
      (db : Database) (ms : List AgentId) (id : AgentId)
      → any (λ m. m == id) ms ≡ true
      → on_file db id ≡ false
      → (why : Reason) × (managed_ids db ms ≡ err why)
  unfolding managed_ids
  managed_ids_missing db [] id h off = absurd (cc h)
  managed_ids_missing db (m ∷ ms) id h off = elim (Result-cases (get_agent db m)) [
    | inr (x, f) ↦ (x, ground (arith, f))
    | inl (b, f) ↦
        let later : any (λ n. n == id) ms ≡ true = ground (arith, f, h, off) in
        let (why, e) = managed_ids_missing db ms id later off in (why, ground (arith, e, f))
  ]

  -- An agent all of whose managed agents are on file has a system prompt.
  system_prompt_ok :
      (db : Database) (role_prompt department_prompt : Text) (a : Agent)
      → All (λ m. on_file db m ≡ true) a.manages
      → (t : Text) × (system_prompt db role_prompt department_prompt a ≡ ok t)
  unfolding system_prompt
  system_prompt_ok db role_prompt department_prompt a h =
      let (ts, e) = managed_ids_ok db a.manages h in
      (
        join (10 ∷ 10 ∷ []) (sections role_prompt department_prompt a ts),
        rw (e, system_prompt) refl,
      )

  deleted : (db : Database) (id : AgentId) → on_file (delete_agent db id).1 id ≡ false
  unfolding delete_agent get_agent
  deleted db id =
      let gone : get agent_key id (sql.rows (sql.delete (by_key agent_key id) db.agents)) ≡ none =
        rw (sql.rows-delete (by_key agent_key id) db.agents)
          (get-drop_where agent_key id id (sql.rows db.agents) ∙ ground (arith, ==_refl id)) in
      ground (arith, gone)

  -- Once an agent that another one manages has been deleted, as its termination does, no system prompt
  -- can be built for the manager.
  pub deleted_breaks_prompt :
      (db : Database) (role_prompt department_prompt : Text) (a : Agent) (id : AgentId)
      → any (λ m. m == id) a.manages ≡ true
      → (why : Reason) × (system_prompt (delete_agent db id).1 role_prompt department_prompt a
          ≡ err why)
  unfolding system_prompt
  deleted_breaks_prompt db role_prompt department_prompt a id h =
      let (why, e) = managed_ids_missing (delete_agent db id).1 a.manages id h (deleted db id) in
      (why, rw (e, system_prompt) refl)
