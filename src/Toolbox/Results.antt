-- ===== src/Toolbox/Results.antt =====
-- tool/ztypes.ts: what a tool returns, the acknowledgement of a published command, citations, and the
-- clipped detail of an observation.
use xevos.Base.{
  Bool, true, false, Option, none, some, List, [], ◌∷◌, ◌++◌, map, take, length, ltb, Text, text,
  join, if◌then◌else◌,
}
use xevos.Schema.Org.{AgentId, AgentStatus}
use xevos.Schema.Task.{Task}
use xevos.Schema.Event.{EventId}
use xevos.Schema.Memory.{WarehouseRow}
use xevos.Schema.Print.{event_text}
use xevos.Memory.Transcript.{newline}
use xevos.Agents.Service.{Spawned}
use xevos.Tasks.Service.{Created, Moved}

-- The `result` objects that the handlers build.
pub data Outcome : Type 0 where
  -- `status: "accepted"`, with the awaited type and the note
  accepted : EventId → Option Text → Text → Outcome
  spawned : Spawned → Outcome
  created : Created → Outcome
  moved : Moved → Outcome
  status_report : AgentId → AgentStatus → List Task → Outcome
  recalled : Text → List WarehouseRow → Outcome
  delivered : Outcome
  idle : Outcome
  -- of a tool whose handler is outside this model
  foreign : Text → Outcome

pub data ToolResult : Type 0 where
  success : Outcome → ToolResult
  failure : Text → ToolResult

abbrev pub succeeded : ToolResult → Bool
succeeded (success _) = true
succeeded (failure _) = false

-- The note of `publish`.
unfoldable pub acknowledgement : EventId → Option Text → Text
unfolding event_text
acknowledgement id (some awaiting) =
    text
      "Acknowledged — your command was published to the event bus. This is NOT the result. The outcome will arrive later as a separate \""
    ++ (awaiting
        ++ (text "\" event addressed to you, carrying correlationId \""
            ++ (event_text id
                ++ text
                    "\". Do not invent or act on any id (taskId, agentId, …) until that event arrives — if you have nothing else to do, call wait_until_response.")))
acknowledgement id none =
    text
      "Acknowledged — your command was published to the event bus. No direct reply is expected for this; you will learn the outcome through later events. Continue with other work or call wait_until_response."

pub record Citation : Type 0 where
  pub title : Text
  pub url : Text
  pub published_date : Option Text

-- `c.publishedDate ? … : ""`: an empty date is falsy.
abbrev pub date_text : Option Text → Text
date_text none = []
date_text (some []) = []
date_text (some (c ∷ t)) = text " (" ++ ((c ∷ t) ++ text ")")

abbrev pub citation_text : Citation → Text
citation_text c =
    text "- " ++ (c.title ++ (date_text c.published_date ++ (newline ++ (text "  " ++ c.url))))

-- `renderCitations`; an absent list is the empty one.
unfoldable pub render_citations : List Citation → Text
render_citations [] = []
render_citations (c ∷ cs) =
    newline
    ++ (newline
        ++ (text "Sources (carry these up unchanged):"
            ++ (newline ++ join newline (map citation_text (c ∷ cs)))))

-- `clipDetail`, after the value is a text
unfoldable pub clip_detail : Text → Text
clip_detail t = if ltb 800 (length t) then take 800 t ++ text "…" else t
