-- ===== src/Schema/Json.antt =====
-- `JSON.stringify` on the values that the program puts into texts, and the messages of exceptions that
-- libraries throw. They are opaque to the program, which only concatenates and cuts them, so they are
-- parameters.
use xevos.Base.{List, Text}
use xevos.Schema.Task.{TaskPatch}
use xevos.Schema.Event.{Body}
use xevos.Schema.Memory.{WarehouseRow}

pub record Json : Type 0 where
  -- `JSON.stringify(memories, null, 2)`
  pub of_memories : List WarehouseRow → Text
  pub of_patch : TaskPatch → Text
  -- `JSON.stringify(event.body, null, 2)`
  pub of_body : Body → Text
  -- the messages of what SQLite throws, and of what a service that is called throws
  pub database_error : Text
  pub service_error : Text
