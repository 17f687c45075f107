-- ===== src/Lib.antt =====
-- xevos: an organization of language-model agents around an event bus and one SQLite database.
--
-- The program's parts and the files that model them:
--   Schema/*            packages/core/src/core/schema: agents, tasks, events, memories. Ids that the
--                       program formats as strings (`task_3`, `worker_engineering_2`) are their parts.
--   Sql, Sql/*          SQLite behind drizzle, which the program only calls: the statements that it
--                       issues are the fields of the record `Sql`, with what SQL says of them as laws.
--                       Every module takes it as an instance argument. Sql/InMemory is an instance, on
--                       which the examples run.
--   Db, Db/Counters     packages/core/src/db/schema.ts: the tables, and the allocation of ids that
--                       createTask, createAgent and archive share.
--   Bus/*               packages/core/src/core/event-bus: Mailbox (index.ts), Store (store.ts), Core (the
--                       class EventBus). Fifo, Pending, Deliver, Durable, Publish, Take, Recovery,
--                       Startup, History, Lives and Frame are proofs.
--   Tasks/*             packages/core/src/repositories/task.repository.ts (Repository) and
--                       packages/core/src/core/services/task.ts (Service). Transitions, Creation and
--                       Lifecycle are proofs.
--   Agents/*            packages/core/src/repositories/agent (Repository, and Seed for default-agent.ts),
--                       packages/core/src/core/services/agent.ts (Roles, Service) and
--                       tool/default-tools.ts (Roles). Ladder, Orderly, Policy, Depth and Hiring are
--                       proofs.
--   Memory/*            packages/core/src/repositories/memory (Repository) and
--                       packages/core/src/core/services/memory.ts (Service and Transcript for closeTask, Recall
--                       for assembleContext and recall). Frame, Closing, Appending and Context are proofs.
--   Toolbox/*           packages/core/src/core/services/tool: Results (ztypes.ts), Handlers (definitions/agent
--                       and definitions/task), Service (registry.ts, executor.ts, service.ts). Parity and
--                       Observed are proofs.
--   Agents/Loop         packages/core/src/core/agents/index.ts. Turns is its proofs.
--   Audit/*             packages/core/src/core/services/audit.ts (Report, Service). Ids, Polling and Verdicts
--                       are proofs.
--   Observer/*          packages/core/src/observer: Page and Queries (queries.ts), Server (ws-server.ts and
--                       the frames of protocol.ts). Paging, History and Live are proofs.
--   System/*            the steps of all components on one world, as packages/core/src/index.ts puts them
--                       together (Steps). Frame, Roster and Order are proofs.
--   Samples             data for the examples of these.
--   Tools/*             packages/core/src/core/services/tool/definitions/code: edit-file.ts, multi-edit.ts,
--                       insert.ts and clip of zutils.ts (Edit), over JavaScript's split and replace
--                       (Pieces), and the tools that run one command or access one file (Commands). Splice
--                       and Separators are proofs. The tools see the container as the
--                       interfaces `Sandbox` and `Shell`; Sandbox/Container fills `Shell`.
--   Sandbox/*           packages/core/src/core/sandbox/docker-sandbox.ts (Container); the docker client is the
--                       parameter `Docker`. Running and Files are proofs.
--   Pool/*              packages/core/src/core/utils.ts: reserveKey (Keys), acquire and release (Slots).
--                       Spacing is proofs.
--   Prompts/*           packages/core/src/core/services/prompt.ts (Service) and
--                       packages/core/src/repositories/prompt (Repository). Roster and Cache are proofs.
--   Principal           packages/core/src/core/principal/index.ts, with its proofs.
--   Web/*               apps/web/lib/use-xevos-stream.ts (Stream). Keys and Views are proofs.
--
-- State is passed explicitly. A `World` is the database and the bus; an `Org` adds the agents that were
-- launched. Mailboxes are shared between the bus and their consumers, so the bus holds them under
-- references. A service is a function from an event to the next state: its handlers run from start to
-- end as one step, which is how the run loops call them, except that tools call `create` and
-- `transition` directly, and those calls can interleave at an `await`; this is not modelled.
-- `Date.now()` is the argument `now`, and so are the times that SQLite fills in by default, which the
-- program reads apart. What is thrown is the result `err`; an error message is a
-- constructor of `Reason`. The language model and the embedding model are the record `Models`.
--
-- Bounds: of the code's own loops only `depthOf` is not over a list. Its guard stops it after 41 turns,
-- and `depth_from` recurses on that number, so the fuel is the code's own bound. Splitting a text has its
-- length as fuel, since each piece takes at least one character of it. Numbers are naturals: the program
-- only counts up from 0, far under 2^53.
--
-- A run of the language model is the list of tools that it calls with its answer, and docker is the
-- exit codes and outputs that it gives: both are parameters, as are the texts that JSON.stringify makes.
-- The wait of the auditor has the code's six attempts as its recursion, and a client that reads page
-- after page has one request more than there are rows as fuel, which is proved to be enough.
--
-- Not modelled: the tool web_search, the git filter of zutils.ts, which nothing calls, the parsing of what
-- a socket receives, the default prompts, the database client, the wiring in index.ts,
-- and the pages of the web client.
pub mod Base
pub mod Schema
pub mod Sql
pub mod Db
pub mod Bus
pub mod Tasks
pub mod Agents
pub mod Memory
pub mod Tools
pub mod Toolbox
pub mod Audit
pub mod Pool
pub mod Prompts
pub mod Principal
pub mod Observer
pub mod Samples
pub mod Sandbox
pub mod System
pub mod Web
