-- ===== src/Correlated/Finish.antt =====
-- The second half of `async_execute`: the send itself, and the outcome recorded for it.
use home_assistant_whatsapp.Base.{Option, false, if◌then◌else◌, none, some, true, ◌-◌, ◌==◌}
use home_assistant_whatsapp.Correlated.Claim.{Request, record_outcome}
use home_assistant_whatsapp.Correlated.Outcome.{SendResult, lost, response, send_outcome}
use home_assistant_whatsapp.Correlated.Types.{Manager, Outcome, Record, Response}
use home_assistant_whatsapp.Dict.{Dict, insert, lookup}
use home_assistant_whatsapp.Store.{SaveResult, save_cancelled, save_failed, saved}

abbrev pub with_outcome : Record → Outcome → Record
with_outcome r o = record r {
  status = o.status;
  message_id = o.message_id;
  error_code = o.error_code;
}

-- How a finished send ended for its caller: a `KeyError`, a response or a `CancelledError`.
pub data Finished : Type 0 where
  missing : Finished
  done : Response → Finished
  cancelled : Finished

pub record Finish : Type 0 where
  pub manager : Manager
  pub written : Option (Dict Record)
  pub result : Finished

-- `_finish` after the outcome is in the record, by how the save ended.
unfoldable pub save_outcome : Manager → Request → Record → SaveResult → Finish
save_outcome m q r saved = record {
  manager = m;
  written = some m.records;
  result = done (response q.conversation_id q.client_request_id (record_outcome r) false);
}
save_outcome m q r save_failed =
    let r' = with_outcome r lost in
    record {
      manager = record m { records = insert q.token r' m.records; persistence_available = false };
      written = some m.records;
      result = done (response q.conversation_id q.client_request_id (record_outcome r') false);
    }
save_outcome m q r save_cancelled = record {
  manager = record m {
    records = insert q.token (with_outcome r lost) m.records;
    persistence_available = false;
  };
  written = some m.records;
  result = Finished.cancelled;
}

-- `_finish`
unfoldable pub finish : Manager → Request → Outcome → SaveResult → Finish
unfolding save_outcome
finish m q o ack = elim (lookup q.token m.records) [
  | none ↦ record { manager = m; written = none; result = missing }
  | some r ↦
      let r' = with_outcome r o in
      save_outcome (record m { records = insert q.token r' m.records }) q r' ack
]

-- A cancelled send raises again, whatever its record says.
abbrev reraise : SendResult → Finished → Finished
reraise SendResult.cancelled (done _) = Finished.cancelled
reraise _ f = f

-- The `finally` of `async_execute`.
unfoldable pub release : Manager → Manager
release m =
    let n = m.active - 1 in record m { active = n; drained = if n == 0 then true else m.drained }

-- `_async_execute_admitted`, and the `finally` around it, where `_finish` gets its lock.
unfoldable pub complete : Manager → Request → SendResult → SaveResult → Finish
unfolding finish release
complete m q send ack =
    let f = finish m q (send_outcome send) ack in
    record f { manager = release f.manager; result = reraise send f.result }

-- The same, where a cancellation comes while `_finish` waits for its lock: the record stays pending.
unfoldable pub abandon : Manager → Finish
unfolding release
abandon m = record { manager = release m; written = none; result = Finished.cancelled }
