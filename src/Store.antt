-- ===== src/Store.antt =====
-- How the calls of a private store end; the store itself is file input and output.
use home_assistant_whatsapp.Base.{Option}
use home_assistant_whatsapp.Json.{Value}

-- How a call of the store's `async_load` ended; a store with no file loads nothing.
pub data LoadResult : Type 0 where
  loaded : Option Value → LoadResult
  load_failed load_cancelled : LoadResult

-- How a call of the store's `async_save` ended.
pub data SaveResult : Type 0 where
  saved save_failed save_cancelled : SaveResult
