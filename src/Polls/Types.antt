-- ===== src/Polls/Types.antt =====
-- The state of a `PollRegistry`.
use home_assistant_whatsapp.Base.{Bool, List, Option, String, [], ℕ}
use home_assistant_whatsapp.Dict.{Dict}
use home_assistant_whatsapp.Json.{Value}

pub data VoteRejection : Type 0 where
  invalid_event_or_session malformed_payload invalid_direction invalid_fields : VoteRejection
  invalid_timestamp multiple_selections unknown_poll lid_resolution_failed : VoteRejection
  poll_chat_mismatch sender_identity_mismatch stale_vote unknown_option : VoteRejection

pub record PollOption : Type 0 where
  pub title : String
  pub action : Option String

-- Times are whole microseconds.
pub record PollVote : Type 0 where
  pub message_id : String
  pub sender : String
  pub poll_chat_id : String
  pub selected_title : Option String
  pub timestamp : ℕ

pub data Origin : Type 0 where
  automation application : Origin

pub record PendingPoll : Type 0 where
  pub message_id : String
  pub chat_id : String
  pub options : Dict (Option String)
  pub settle_seconds : ℕ
  pub person_entity_id : Option String
  pub conversation_id : Option String
  pub origin : Origin
  pub client_request_id : Option String
  pub emit_legacy_action : Bool
  pub latest_vote_timestamp : Option ℕ
  pub selected_title : Option String
  pub commit_at : Option ℕ
  pub invalid_timestamp : Bool

-- An application receipt, and when it was saved.
pub record Receipt : Type 0 where
  pub payload : Dict Value
  pub saved_at : ℕ

pub record Registry : Type 0 where
  pub polls : Dict PendingPoll
  pub selections : List Receipt
  pub selection_sequence : ℕ
  pub invalid_pending_records : ℕ

abbrev pub new_registry : Registry
new_registry = record {
  polls = [];
  selections = [];
  selection_sequence = 0;
  invalid_pending_records = 0;
}
