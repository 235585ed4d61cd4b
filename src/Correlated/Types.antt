-- ===== src/Correlated/Types.antt =====
-- The state of a `CorrelatedSendManager` and the outcomes it deals in.
use home_assistant_whatsapp.Base.{
  Bool, List, Option, String, [], if◌then◌else◌, none, some, str_eq, ℕ, ◌*◌, ◌∷◌,
}
use home_assistant_whatsapp.Base.Int.{ℤ}
use home_assistant_whatsapp.Dict.{Dict}
use home_assistant_whatsapp.Json.{Value}

-- Instants and durations are whole microseconds.
abbrev pub idempotency_retention : ℕ
idempotency_retention = 7 * 24 * 60 * 60 * 1000000

abbrev pub max_idempotency_records : ℕ
max_idempotency_records = 2048

abbrev pub max_idempotency_storage_bytes : ℕ
max_idempotency_storage_bytes = 1024 * 1024

abbrev pub max_client_request_id_length : ℕ
max_client_request_id_length = 128

abbrev pub max_message_id_bytes : ℕ
max_message_id_bytes = 256

abbrev pub max_upload_tokens : ℕ
max_upload_tokens = 8

pub data Status : Type 0 where
  pending accepted failed unknown : Status

pub data Code : Type 0 where
  invalid_conversation invalid_reply_target request_conflict channel_unavailable : Code
  persistence_unavailable rate_limited transport_failure outcome_unknown : Code
  invalid_request not_authorized media_not_found media_expired media_disabled : Code
  unsupported unsupported_media_type media_too_large invalid_media busy : Code
  storage_unavailable : Code

abbrev pub status_name : Status → String
status_name pending = "pending"
status_name accepted = "accepted"
status_name failed = "failed"
status_name unknown = "unknown"

abbrev pub code_name : Code → String
code_name invalid_conversation = "invalid_conversation"
code_name invalid_reply_target = "invalid_reply_target"
code_name request_conflict = "request_conflict"
code_name channel_unavailable = "channel_unavailable"
code_name persistence_unavailable = "persistence_unavailable"
code_name rate_limited = "rate_limited"
code_name transport_failure = "transport_failure"
code_name outcome_unknown = "outcome_unknown"
code_name invalid_request = "invalid_request"
code_name not_authorized = "not_authorized"
code_name media_not_found = "media_not_found"
code_name media_expired = "media_expired"
code_name media_disabled = "media_disabled"
code_name unsupported = "unsupported"
code_name unsupported_media_type = "unsupported_media_type"
code_name media_too_large = "media_too_large"
code_name invalid_media = "invalid_media"
code_name busy = "busy"
code_name storage_unavailable = "storage_unavailable"

-- `_STATUSES`
abbrev pub statuses : List Status
statuses = pending ∷ accepted ∷ failed ∷ unknown ∷ []

-- `_CODES`
abbrev pub codes : List Code
codes =
    invalid_conversation ∷ invalid_reply_target ∷ request_conflict ∷ channel_unavailable
    ∷ persistence_unavailable ∷ rate_limited ∷ transport_failure ∷ outcome_unknown ∷ invalid_request
    ∷ not_authorized ∷ media_not_found ∷ media_expired ∷ media_disabled ∷ unsupported
    ∷ unsupported_media_type ∷ media_too_large ∷ invalid_media ∷ busy ∷ storage_unavailable ∷ []

-- Membership of a text in a set of names, with the member it names.
unfoldable pub find_named {ℓ} : {A : Type ℓ} → (A → String) → String → List A → Option A
find_named name s [] = none
find_named name s (x ∷ xs) = if str_eq (name x) s then some x else find_named name s xs

-- A media receipt binding that `_valid_media_binding` admits.
pub record Media : Type 0 where
  pub upload_tokens : List String
  pub principal_token : String
  pub sha256 : String
  pub size_bytes : ℕ
  pub kind : String
  pub mime_type : String
  pub native_opus : Bool
  pub file_name_digest : String
  pub route_binding_digest : String

pub record Record : Type 0 where
  pub digest : String
  pub created_at : ℤ
  pub status : Status
  pub message_id : Option String
  pub error_code : Option Code
  pub media : Option Media

-- `is_owner` is the test `self._writer_slot.owner is self`; `active` is the size of `_active`, and
-- `drained` the event that `async_stop` waits for.
pub record Manager : Type 0 where
  pub records : Dict Record
  pub persistence_available : Bool
  pub started : Bool
  pub capacity_exhausted : Bool
  pub stopping : Bool
  pub is_owner : Bool
  pub active : ℕ
  pub drained : Bool

-- What the manager is built on and does not implement: the JSON encoding and SHA-256.
-- `json_size v` is `len(_encoded(v))` and `json_digest v` the hex digest of `_encoded(v)`; `none` is
-- a value that `json.dumps` refuses.
pub record Config : Type 0 where
  pub entry_id : String
  pub json_size : Value → Option ℕ
  pub json_digest : Value → Option String

pub record Response : Type 0 where
  pub conversation_id : String
  pub client_request_id : String
  pub status : Status
  pub message_id : Option String
  pub error_code : Option Code
  pub replayed : Bool

-- The fields that `_response` reads of a record or of a literal failure.
pub record Outcome : Type 0 where
  pub status : Status
  pub message_id : Option String
  pub error_code : Option Code
