-- ===== src/Correlated/Outcome.antt =====
-- What the send callback did, and the outcome recorded for it: `_outcome`, the `except` clauses of
-- `_async_execute_admitted`, `_response` and `_safe_message_id`.
use Prim.Native.String.{len}
use home_assistant_whatsapp.Base.{
  Bool, Option, String, if◌then◌else◌, leb, ltb, none, not, or_else, some, str_eq, ℕ, ◌&&◌, ◌==◌,
  ◌>>=◌,
}
use home_assistant_whatsapp.Correlated.Types.{
  Code, Outcome, Response, Status, accepted, channel_unavailable, code_name, codes, failed,
  find_named, max_message_id_bytes, outcome_unknown, pending, rate_limited, status_name, statuses,
  transport_failure, unknown,
}
use home_assistant_whatsapp.Dict.{Dict}
use home_assistant_whatsapp.Json.{Value, dict, get, get_default, null, str, to_dict}

-- `_safe_message_id`, with the identifier it admits.
unfoldable pub safe_message_id : Value → Option (Option String)
safe_message_id null = some none
safe_message_id (str s) =
    if not (str_eq s "") && leb (len s) max_message_id_bytes then some (some s) else none
safe_message_id _ = none

-- `v in _CODES | {None}`, with the code it is.
unfoldable pub code_of : Value → Option (Option Code)
code_of null = some none
code_of (str s) = elim (find_named code_name s codes) [ none ↦ none | some c ↦ some (some c) ]
code_of _ = none

-- `v in _STATUSES`, with the status it is.
unfoldable pub status_of : Value → Option Status
status_of (str s) = find_named status_name s statuses
status_of _ = none

-- `v in {"accepted", "failed", "unknown"}`
unfoldable pub settled_status_of : Value → Option Status
unfolding status_of
settled_status_of v = elim (status_of v) [
  | none ↦ none
  | some pending ↦ none
  | some other ↦ some other
]

-- The last steps of `_outcome`: the error code that goes with each status.
unfoldable pub settle : Status → Option String → Option Code → Outcome
settle unknown i c = record { status = unknown; message_id = i; error_code = some outcome_unknown }
settle failed i c = record {
  status = failed;
  message_id = i;
  error_code = some (or_else c transport_failure);
}
settle s i c = record { status = s; message_id = i; error_code = none }

-- The dict that a callback returned.
unfoldable pub mapping_outcome : Dict Value → Option Outcome
mapping_outcome d = do
  s ← settled_status_of (get_default "status" (str "accepted") d)
  i ← safe_message_id (get "message_id" d)
  c ← code_of (get "error_code" d)
  some (settle s i c)

-- `_outcome`; `none` is its `ValueError`.
unfoldable pub outcome : Value → Option Outcome
outcome null = some (settle accepted none none)
outcome (str s) = do i ← safe_message_id (str s); some (settle accepted i none)
outcome (dict fs) = mapping_outcome (to_dict fs)
outcome _ = none

-- How the callback ended. A `CorrelatedSendError` has the status `unknown` or `failed`.
pub data SendResult : Type 0 where
  returned : Value → SendResult
  cancelled : SendResult
  correlated_error : Code → Bool → SendResult
  authentication_error session_not_found : SendResult
  request_error : ℕ → SendResult
  other_error : SendResult

abbrev pub lost : Outcome
lost = record { status = unknown; message_id = none; error_code = some outcome_unknown }

abbrev pub failure : Code → Outcome
failure c = record { status = failed; message_id = none; error_code = some c }

-- The outcome that `_async_execute_admitted` records.
unfoldable pub send_outcome : SendResult → Outcome
send_outcome (returned v) = elim (outcome v) [ none ↦ lost | some o ↦ o ]
send_outcome cancelled = lost
send_outcome (correlated_error c is_unknown) = record {
  status = if is_unknown then unknown else failed;
  message_id = none;
  error_code = some c;
}
send_outcome authentication_error = failure channel_unavailable
send_outcome session_not_found = failure channel_unavailable
send_outcome (request_error status) =
    if status == 429
    then failure rate_limited
    else if leb 400 status && ltb status 500
    then failure transport_failure
    else lost
send_outcome other_error = lost

-- `_response`
unfoldable pub response : String → String → Outcome → Bool → Response
response conversation client o replayed = record {
  conversation_id = conversation;
  client_request_id = client;
  status = o.status;
  message_id = o.message_id;
  error_code = o.error_code;
  replayed = replayed;
}
