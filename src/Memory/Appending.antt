-- ===== src/Memory/Appending.antt =====
-- `append` of repositories/memory: an agent's memory grows at its end, and no other changes.
use xevos.Base.{
  ℕ, ◌≡◌, refl, Bool, false, Option-cases, none, List, [], ◌∷◌, ◌++◌, any, find, inl, inr, arith,
  ◌==◌, if◌then◌else◌,
}
use xevos.Schema.Org.{AgentId, agent_id_eq}
use xevos.Schema.Memory.{AgentMemory, ModelMessage}
use xevos.Sql.{Sql}
use xevos.Sql.Rows.{by_key, get-set_where, get-append_one}
use xevos.Db.{Database, ok}
use xevos.Memory.Repository.{memory_key, messages_of, get_memory, append_memory}

find-none : {A : Type 0} (p : A → Bool) (xs : List A) → find p xs ≡ none → any p xs ≡ false
find-none p [] h = refl
find-none p (x ∷ xs) h = ground (arith, h, find-none p xs)

module _ ⦃sql : Sql⦄ where
  -- What an append has done.
  pub record Appended (db : Database) (now : ℕ) (a : AgentId) (new : List ModelMessage)
      : Type 0 where
    pub memory : AgentMemory
    pub db' : Database
    pub stored : append_memory db now a new ≡ ok (memory, db')
    pub grown :
        (b : AgentId)
        → messages_of (get_memory db' b)
          ≡ (if a == b then messages_of (get_memory db a) ++ new else messages_of (get_memory db b))
    pub events : db'.events ≡ db.events
    pub tasks : db'.tasks ≡ db.tasks
    pub agents : db'.agents ≡ db.agents

  -- An append succeeds, and puts the messages at the end of the agent's memory.
  pub append_memory-Appended :
      (db : Database) (now : ℕ) (a : AgentId) (new : List ModelMessage) → Appended db now a new
  unfolding append_memory get_memory
  append_memory-Appended db now a new =
      let m : AgentMemory = record {
        agent_id = a;
        messages = messages_of (get_memory db a) ++ new;
        updated_at = now;
      } in
      elim (Option-cases (get_memory db a)) [
        | inl e ↦
            let free = find-none (by_key memory_key a) (sql.rows db.memories) e in
            let (memories, inserted, rows) =
              sql.insert_fresh (by_key memory_key a) m db.memories free in
            record {
              memory = m;
              db' = record db { memories = memories };
              stored = ground (arith, e, inserted);
              grown = λ b.
                  rw rows
                    (ground (arith, e, get-append_one memory_key b (sql.rows db.memories) m free));
              events = refl;
              tasks = refl;
              agents = refl;
            }
        | inr (old, e) ↦
            let set = λ (r : AgentMemory). record r { messages = m.messages; updated_at = now } in
            record {
              memory = m;
              db' = record db { memories = sql.update (by_key memory_key a) set db.memories };
              stored = ground (arith, e);
              grown = λ b. rw (sql.rows-update (by_key memory_key a) set db.memories) (
                  ground (
                    arith,
                    e,
                    get-set_where memory_key a b set (sql.rows db.memories) (λ r. refl),
                  ));
              events = refl;
              tasks = refl;
              agents = refl;
            }
      ]
