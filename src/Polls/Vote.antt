-- ===== src/Polls/Vote.antt =====
-- A webhook's vote: `parse_poll_vote_with_reason` and `resolve_vote_lids`.
use home_assistant_whatsapp.Base.{
  Bool, List, Option, String, [], false, if◌then◌else◌, none, not, some, true, ℕ, ◌&&◌, ◌>>=◌, ◌∷◌,
}
use home_assistant_whatsapp.Dict.{Dict, lookup}
use home_assistant_whatsapp.Json.{Value, as_bool, as_dict, as_list, get, is_text, nonempty, null}
use home_assistant_whatsapp.Polls.Identity.{is_lid_chat_id, lid_mapping_id}
use home_assistant_whatsapp.Polls.Timestamp.{normalize_vote_timestamp}
use home_assistant_whatsapp.Polls.Types.{
  PollVote, VoteRejection, invalid_direction, invalid_event_or_session, invalid_fields,
  invalid_timestamp, malformed_payload, multiple_selections,
}

pub data Parsed : Type 0 where
  accepted : PollVote → Parsed
  rejected : VoteRejection → Parsed

-- `d.get(k) is b`
unfoldable pub is_flag : String → Bool → Dict Value → Bool
is_flag k true d = elim (as_bool (get k d)) [ none ↦ false | some b ↦ b ]
is_flag k false d = elim (as_bool (get k d)) [ none ↦ false | some b ↦ not b ]

-- The last checks, once the fields are read.
unfoldable pub parse_selection : String → String → String → Option ℕ → List Value → Parsed
parse_selection message_id sender poll_chat_id none selected = rejected invalid_timestamp
parse_selection message_id sender poll_chat_id (some t) [] = accepted (record {
  message_id = message_id;
  sender = sender;
  poll_chat_id = poll_chat_id;
  selected_title = none;
  timestamp = t;
})
parse_selection message_id sender poll_chat_id (some t) (v ∷ []) = elim (nonempty v) [
  | none ↦ rejected invalid_fields
  | some title ↦ accepted (record {
    message_id = message_id;
    sender = sender;
    poll_chat_id = poll_chat_id;
    selected_title = some title;
    timestamp = t;
  })
]
parse_selection message_id sender poll_chat_id (some t) (v ∷ w ∷ vs) = rejected multiple_selections

-- The fields that a vote must have.
unfoldable pub vote_fields :
    Dict Value → Dict Value → Option (String × String × String × List Value)
vote_fields vote poll = do
  message_id ← nonempty (get "id" poll)
  sender ← nonempty (get "from" vote)
  poll_chat_id ← nonempty (get "to" poll)
  selected ← as_list (get "selectedOptions" vote)
  some (message_id, sender, poll_chat_id, selected)

unfoldable pub parse_fields : Dict Value → Dict Value → Parsed
parse_fields vote poll =
    if is_flag "fromMe" false vote && is_flag "fromMe" true poll
    then elim (vote_fields vote poll) [
      | none ↦ rejected invalid_fields
      | some (message_id, sender, poll_chat_id, selected) ↦
          parse_selection message_id sender poll_chat_id
            (normalize_vote_timestamp (get "timestamp" vote) null) selected
    ]
    else rejected invalid_direction

-- The `vote` and the `poll` of a payload.
unfoldable pub vote_parts : Dict Value → Option (Dict Value × Dict Value)
vote_parts d = do
  payload ← as_dict (get "payload" d)
  vote ← as_dict (get "vote" payload)
  poll ← as_dict (get "poll" payload)
  some (vote, poll)

-- `parse_poll_vote_with_reason`
unfoldable pub parse_poll_vote_with_reason : Dict Value → String → Parsed
parse_poll_vote_with_reason d session_name =
    if is_text "event" "poll.vote" d && is_text "session" session_name d
    then elim (vote_parts d) [
      | none ↦ rejected malformed_payload
      | some (vote, poll) ↦ parse_fields vote poll
    ]
    else rejected invalid_event_or_session

-- `_resolve`, against the verified mappings by LID; casefolding leaves decimal digits and "@lid" alone.
unfoldable pub resolve_identity : Dict String → String → Option String
resolve_identity mappings value =
    if is_lid_chat_id value then lookup (lid_mapping_id value) mappings else some value

-- `resolve_vote_lids`
unfoldable pub resolve_vote_lids : PollVote → Dict String → Option PollVote
resolve_vote_lids vote mappings = do
  sender ← resolve_identity mappings vote.sender
  poll_chat_id ← resolve_identity mappings vote.poll_chat_id
  some (record vote { sender = sender; poll_chat_id = poll_chat_id })
