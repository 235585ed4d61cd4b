-- ===== src/Correlated/Start.antt =====
-- A manager's life: `_restore` of a stored ledger, `async_start`, `async_stop`, and the handover
-- from one manager to the next.
use home_assistant_whatsapp.Base.{
  Bool, List, Option, String, [], false, guard, if◌then◌else◌, leb, length, none, some, true, ℕ,
  ◌&&◌, ◌*◌, ◌+◌, ◌>>=◌, ◌>>◌, ◌||◌, ◌∷◌,
}
use home_assistant_whatsapp.Base.Int.{negsuc, pos, ℤ}
use home_assistant_whatsapp.Correlated.Ledger.{prune, prune_changes, size_fits}
use home_assistant_whatsapp.Correlated.Media.{has_keys, is_digest, media_of}
use home_assistant_whatsapp.Correlated.Outcome.{code_of, safe_message_id, status_of}
use home_assistant_whatsapp.Correlated.Types.{
  Config, Manager, Media, Record, max_idempotency_records, outcome_unknown, pending, unknown,
}
use home_assistant_whatsapp.Dict.{Dict, map_values}
use home_assistant_whatsapp.Json.{Value, as_dict, as_str, finite, float, get, int}
use home_assistant_whatsapp.Store.{
  LoadResult, SaveResult, load_cancelled, load_failed, loaded, save_cancelled, save_failed, saved,
}

abbrev pub record_keys : List String
record_keys = "digest" ∷ "created_at" ∷ "status" ∷ "message_id" ∷ "error_code" ∷ []

-- A finite number of seconds, read as an instant.
unfoldable pub instant_of : Value → Option ℤ
instant_of (int (pos n)) = some (pos (n * 1000000))
instant_of (int (negsuc n)) = some (negsuc (n * 1000000 + 999999))
instant_of (float (finite t)) = some t
instant_of _ = none

-- The two sets of keys that a stored record may have, and its media.
unfoldable pub stored_media : Dict Value → Option (Option Media)
stored_media d =
    if has_keys record_keys d
    then some none
    else if has_keys ("media" ∷ record_keys) d
    then elim (media_of (get "media" d)) [ none ↦ none | some b ↦ some (some b) ]
    else none

-- One stored record; `none` is the `ValueError` of `_restore`.
unfoldable pub restore_record : Value → Option Record
restore_record v = do
  d ← as_dict v
  media ← stored_media d
  digest ← as_str (get "digest" d)
  guard (is_digest digest)
  created_at ← instant_of (get "created_at" d)
  status ← status_of (get "status" d)
  message_id ← safe_message_id (get "message_id" d)
  error_code ← code_of (get "error_code" d)
  some (record {
    digest = digest;
    created_at = created_at;
    status = status;
    message_id = message_id;
    error_code = error_code;
    media = media;
  })

unfoldable pub restore_records : Dict Value → Option (Dict Record)
unfolding restore_record
restore_records [] = some []
restore_records ((token, v) ∷ d) = do
  guard (is_digest token)
  r ← restore_record v
  rs ← restore_records d
  some ((token, r) ∷ rs)

-- `_restore`
unfoldable pub restore : Config → Value → Option (Dict Record)
restore c body = do
  d ← as_dict body
  stored ← as_dict (get "records" d)
  guard (leb (length stored) max_idempotency_records && size_fits c body)
  restore_records stored

-- A send that was in flight when the process ended.
unfoldable pub interrupt : Record → Record
interrupt r = elim r.status [
  | pending ↦ record r { status = unknown; error_code = some outcome_unknown }
  | _ ↦ r
]

unfoldable pub has_pending : Dict Record → Bool
has_pending [] = false
has_pending ((token, r) ∷ d) = elim r.status [ pending ↦ true | _ ↦ has_pending d ]

-- The new state, the records handed to `async_save` if it was called, and whether a
-- `CancelledError` went through.
pub record Start : Type 0 where
  pub manager : Manager
  pub written : Option (Dict Record)
  pub raised : Bool

-- A manager that is started and has not got its ledger yet.
abbrev pub claimed : Manager → Manager
claimed m = record m { is_owner = true; started = true }

-- A manager whose ledger could not be read.
abbrev pub unavailable : Manager → Manager
unavailable m = record (claimed m) { persistence_available = false }

-- The save that ends `async_start`.
unfoldable pub save_start : Manager → SaveResult → Start
save_start m saved = record {
  manager = record m { persistence_available = true };
  written = some m.records;
  raised = false;
}
save_start m save_failed = record {
  manager = record m { persistence_available = false };
  written = some m.records;
  raised = false;
}
save_start m save_cancelled = record { manager = m; written = some m.records; raised = true }

-- `if changed: await self._store.async_save(self._snapshot())`
unfoldable pub settle_start : Manager → Bool → SaveResult → Start
settle_start m true ack = save_start m ack
settle_start m false ack = record {
  manager = record m { persistence_available = true };
  written = none;
  raised = false;
}

-- `async_start` once a ledger is read.
unfoldable pub start_records : Manager → Dict Record → ℕ → SaveResult → Start
start_records m records now ack =
    let before = record m { records = records } in
    let pruned = prune now before in
    settle_start (record pruned { records = map_values interrupt pruned.records })
      (prune_changes now before || has_pending pruned.records) ack

-- `async_start`, after the previous owner is drained.
unfoldable pub start : Config → Manager → LoadResult → ℕ → SaveResult → Start
unfolding start_records
start c m load now ack =
    if m.started || m.stopping
    then record { manager = m; written = none; raised = false }
    else elim load [
      | load_failed ↦ record { manager = unavailable m; written = none; raised = false }
      | load_cancelled ↦ record { manager = claimed m; written = none; raised = true }
      | loaded none ↦ start_records (claimed m) m.records now ack
      | loaded (some v) ↦ elim (restore c v) [
        | none ↦ record { manager = unavailable m; written = none; raised = false }
        | some records ↦ start_records (claimed m) records now ack
      ]
    ]

-- The fence of `async_stop`; its caller then waits for `drained`.
unfoldable pub stop : Manager → Manager
stop m = record m { stopping = true; persistence_available = false }

-- A new `CorrelatedSendManager`.
abbrev pub new_manager : Manager
new_manager = record {
  records = [];
  persistence_available = false;
  started = false;
  capacity_exhausted = false;
  stopping = false;
  is_owner = false;
  active = 0;
  drained = true;
}
