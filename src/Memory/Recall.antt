-- ===== src/Memory/Recall.antt =====
-- `assembleContext`, `buildSearchQuery`, `recall` and `recordTurn` of core/services/memory.ts, and
-- `searchByVector` of repositories/memory. The nearest neighbours are found by sqlite-vec, which the
-- program only calls.
use xevos.Base.{
  ℕ, ◌≤◌, ◌≡◌, Bool, true, false, ◌&&◌, Option, none, some, List, [], ◌∷◌, ◌++◌, any, length, Text,
  text, text_eq, ◌==◌, nat_eq, if◌then◌else◌,
}
use xevos.Schema.Org.{Agent}
use xevos.Schema.Event.{
  Event, Body, task_create_request, task_update_request, task_transition_request,
  information_request, escalation_request, approval_request, review_presentation_request,
}
use xevos.Schema.Json.{Json}
use xevos.Schema.Memory.{AgentMemory, ModelMessage, Speaker, system, WarehouseRow, VectorRow, plain}
use xevos.Schema.Print.{task_text, status_text}
use xevos.Sql.{Sql}
use xevos.Sql.Rows.{get}
use xevos.Db.{Database, Result}
use xevos.Memory.Repository.{row_key, messages_of, get_memory, append_memory}
use xevos.Memory.Service.{Models}
use xevos.Memory.Transcript.{newline, trim}

-- `SELECT rowid … WHERE embedding MATCH ? ORDER BY distance LIMIT ?`; `none` is an exception.
pub record Nearest ⦃sql : Sql⦄ : Type 0 where
  pub knn : sql.Table VectorRow → List ℕ → ℕ → Option (List ℕ)
  -- `LIMIT`
  pub knn_bounded :
      (t : sql.Table VectorRow) (q : List ℕ) (limit : ℕ) (ids : List ℕ)
      → knn t q limit ≡ some ids
      → length ids ≤ limit

-- `WAREHOUSE_CONTEXT_LIMIT`
abbrev pub warehouse_context_limit : ℕ
warehouse_context_limit = 5

-- `WAREHOUSE_CONTEXT_ID`
abbrev pub warehouse_context_id : Text
warehouse_context_id = text "warehouse-context"

abbrev is_system : Speaker → Bool
is_system system = true
is_system _ = false

abbrev has_id : Text → Option Text → Bool
has_id t none = false
has_id t (some s) = s == t

-- A message that `assembleContext` takes for a warehouse context.
unfoldable pub is_warehouse_context : ModelMessage → Bool
is_warehouse_context m = is_system m.role && has_id warehouse_context_id m.id

-- `buildSearchQuery`: an empty query is falsy, as `none` is, and its caller searches in neither case.
unfoldable pub build_search_query : Json → Body → Option Text
build_search_query json (task_create_request t) =
    some (trim (t.title ++ (text " " ++ t.description)))
build_search_query json (task_update_request id patch) =
    some (text "task update " ++ (task_text id ++ (text " " ++ json.of_patch patch)))
build_search_query json (task_transition_request id to _) =
    some (text "task " ++ (task_text id ++ (text " transition to " ++ status_text to)))
build_search_query json (information_request query) = some query
build_search_query json (escalation_request reason _) = some reason
build_search_query json (approval_request action reason) = some (action ++ (text " " ++ reason))
build_search_query json (review_presentation_request summary _) = some summary
build_search_query json _ = none

module _ ⦃sql : Sql⦄ where
  -- `byRowid.get(id)`, over the rows that the second query reads
  unfoldable pub rows_of : Database → List ℕ → List WarehouseRow
  rows_of db [] = []
  rows_of db (id ∷ ids) = elim (get row_key id (sql.rows db.warehouse)) [
    | none ↦ rows_of db ids
    | some r ↦ r ∷ rows_of db ids
  ]

  module _ (near : Nearest) (models : Models) where
    -- `searchByVector`
    unfoldable pub search_by_vector : Database → List ℕ → ℕ → Option (List WarehouseRow)
    search_by_vector db embedding limit = elim (near.knn db.vectors embedding limit) [
      | none ↦ none
      | some ids ↦ some (rows_of db ids)
    ]

    -- `vectorRecall`: nothing, on any failure.
    unfoldable pub vector_recall : Database → Text → ℕ → List WarehouseRow
    unfolding search_by_vector
    vector_recall db query limit = elim (models.embed_text query) [
      | none ↦ []
      | some embedding ↦ elim (search_by_vector db embedding limit) [ none ↦ [] | some rows ↦ rows ]
    ]

    -- `recall`, with the limit it takes by default
    abbrev pub recall : Database → Text → List WarehouseRow
    recall db query = vector_recall db query warehouse_context_limit

    module _ (json : Json) where
      -- `warehouseMessage`
      abbrev pub warehouse_message : List WarehouseRow → ModelMessage
      warehouse_message rows = record {
        role = system;
        id = some warehouse_context_id;
        content = plain (text "Warehouse Context:" ++ (newline ++ json.of_memories rows));
      }

      abbrev pub with_context : List WarehouseRow → List ModelMessage → List ModelMessage
      with_context [] messages = messages
      with_context (r ∷ rows) messages = warehouse_message (r ∷ rows) ∷ messages

      -- The search of `assembleContext`, when the query is truthy.
      abbrev pub context_for : Database → Option Text → List WarehouseRow
      context_for db none = []
      context_for db (some []) = []
      context_for db (some (c ∷ query)) = vector_recall db (c ∷ query) warehouse_context_limit

      -- `assembleContext`
      unfoldable pub assemble_context : Database → Agent → Event → List ModelMessage
      assemble_context db a e =
          let messages = messages_of (get_memory db a.id) in
          if any is_warehouse_context messages
          then messages
          else with_context (context_for db (build_search_query json e.body)) messages

  -- `recordTurn`
  abbrev pub record_turn :
      Database → ℕ → Agent → List ModelMessage → Result (AgentMemory × Database)
  record_turn db now a messages = append_memory db now a.id messages
