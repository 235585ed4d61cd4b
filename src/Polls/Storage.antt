-- ===== src/Polls/Storage.antt =====
-- The private store of a `PollRegistry`: `as_dict`, `from_dict` and `load`.
use text.Mathlib.Text.{starts_with}
use home_assistant_whatsapp.Base.{
  Bool, Option, String, [], concat, count, false, guard, if◌then◌else◌, is_none, is_some, leb,
  length, none, not, or_else, some, str_eq, true, ℕ, ◌&&◌, ◌>>=◌, ◌>>◌, ◌||◌, ◌∷◌,
}
use home_assistant_whatsapp.Base.Int.{pos}
use home_assistant_whatsapp.Dict.{Dict, lookup, map_values}
use home_assistant_whatsapp.Json.{
  Value, as_bool, as_dict, as_str, bool, dict, finite, float, from_dict, get, get_default, nonempty,
  null, opt_str, str,
}
use home_assistant_whatsapp.Polls.Identity.{canonical_message_id}
use home_assistant_whatsapp.Polls.Timestamp.{millionths_of, normalize_vote_timestamp}
use home_assistant_whatsapp.Polls.Types.{Origin, PendingPoll, application, automation}
use home_assistant_whatsapp.Text.{is_digits}

abbrev pub origin_name : Origin → String
origin_name automation = "automation"
origin_name application = "application"

abbrev pub opt_time : Option ℕ → Value
opt_time none = null
opt_time (some t) = float (finite (pos t))

abbrev pub quarantine_field : Bool → Dict Value
quarantine_field true = ("invalid_timestamp", bool true) ∷ []
quarantine_field false = []

-- `PendingPoll.as_dict`
unfoldable pub as_storage : PendingPoll → Dict Value
as_storage p =
    ("message_id", str p.message_id)
    ∷ ("chat_id", str p.chat_id)
    ∷ ("options", dict (from_dict (map_values opt_str p.options)))
    ∷ ("settle_seconds", float (finite (pos p.settle_seconds)))
    ∷ ("person_entity_id", opt_str p.person_entity_id)
    ∷ ("conversation_id", opt_str p.conversation_id)
    ∷ ("origin", str (origin_name p.origin))
    ∷ ("client_request_id", opt_str p.client_request_id)
    ∷ ("emit_legacy_action", bool p.emit_legacy_action)
    ∷ ("latest_vote_timestamp", opt_time p.latest_vote_timestamp)
    ∷ ("selected_title", opt_str p.selected_title)
    ∷ ("commit_at", opt_time p.commit_at)
    ∷ ("timestamp_unit", str "seconds")
    ∷ quarantine_field p.invalid_timestamp

-- `v in {"automation", "application"}`, with the origin it is.
unfoldable pub origin_of : Value → Option Origin
origin_of v = do
  s ← as_str v
  if str_eq s "automation"
      then some automation
      else if str_eq s "application"
      then some application
      else none

-- `None`, or a text that passes a test.
unfoldable pub optional_text : (String → Bool) → Value → Option (Option String)
optional_text p null = some none
optional_text p (str s) = if p s then some (some s) else none
optional_text p _ = none

abbrev pub is_nonempty : String → Bool
is_nonempty s = not (str_eq s "")

abbrev pub is_request_id : String → Bool
is_request_id s = leb 1 (count s) && leb (count s) 128

abbrev pub is_person : String → Bool
is_person s = starts_with s "person."

-- The seconds that a poll may take to settle, in microseconds.
unfoldable pub settle_of : Value → Option ℕ
unfolding millionths_of
settle_of v = do n ← millionths_of v; guard (leb n 30000000); some n

-- The options of a stored poll.
unfoldable pub options_of : Dict Value → Option (Dict (Option String))
unfolding optional_text
options_of [] = some []
options_of ((title, v) ∷ d) = do
  guard (is_nonempty title)
  action ← optional_text is_nonempty v
  rest ← options_of d
  some ((title, action) ∷ rest)

-- An application poll must be correlated, and is never announced as an action.
unfoldable pub is_stored_origin : Origin → Option String → Bool → Bool
is_stored_origin automation request legacy = true
is_stored_origin application request legacy = is_some request && not legacy

-- The vote of a stored poll: its time, choice and deadline.
pub record StoredVote : Type 0 where
  pub latest : Option ℕ
  pub title : Option String
  pub deadline : Option ℕ

-- A stored time that is absent, or valid.
unfoldable pub vote_time : Value → Value → Option (Option ℕ)
vote_time null unit = some none
vote_time v unit = elim (normalize_vote_timestamp v unit) [ none ↦ none | some t ↦ some (some t) ]

abbrev pub seconds : Value
seconds = str "seconds"

-- A time without a choice, or all three of a choice that the poll offers.
unfoldable pub is_coherent : Dict (Option String) → StoredVote → Bool
is_coherent options v = elim v.title [
  | none ↦ is_none v.deadline
  | some title ↦ is_some (lookup title options) && is_some v.latest && is_some v.deadline
]

-- The vote as it is stored; `none` where its metadata is unsafe.
unfoldable pub stored_vote : Dict Value → Dict (Option String) → Option StoredVote
stored_vote d options = do
  latest ← vote_time (get "latest_vote_timestamp" d) (get "timestamp_unit" d)
  deadline ← vote_time (get "commit_at" d) seconds
  title ← optional_text (λ s. true) (get "selected_title" d)
  let v : StoredVote = record { latest = latest; title = title; deadline = deadline }
  guard (is_coherent options v)
  some v

abbrev pub no_vote : StoredVote
no_vote = record { latest = none; title = none; deadline = none }

-- The repair of an application poll that was stored with a bare number.
unfoldable pub repaired_chat : Origin → String → String
repaired_chat automation chat_id = chat_id
repaired_chat application chat_id =
    if is_digits 7 15 chat_id then concat chat_id "@c.us" else chat_id

-- `d.get("invalid_timestamp") is True`
unfoldable pub was_quarantined : Dict Value → Bool
was_quarantined d = or_else (as_bool (get "invalid_timestamp" d)) false

-- `PendingPoll.from_dict`, where it raises nothing: `read_pending` of Load adds the exceptions.
unfoldable pub from_storage : Dict Value → Option PendingPoll
from_storage d = do
  message_id ← nonempty (get "message_id" d)
  chat_id ← nonempty (get "chat_id" d)
  raw_options ← as_dict (get "options" d)
  settle_seconds ← settle_of (get "settle_seconds" d)
  origin ← origin_of (get_default "origin" (str "automation") d)
  legacy ← as_bool (get_default "emit_legacy_action" (bool true) d)
  request ← optional_text is_request_id (get "client_request_id" d)
  guard (is_stored_origin origin request legacy)
  person ← optional_text is_person (get "person_entity_id" d)
  conversation ← optional_text is_nonempty (get "conversation_id" d)
  options ← options_of raw_options
  guard (leb 2 (length options))
  let vote = or_else (stored_vote d options) no_vote
  some (record {
    message_id = canonical_message_id message_id;
    chat_id = repaired_chat origin chat_id;
    options = options;
    settle_seconds = settle_seconds;
    person_entity_id = person;
    conversation_id = conversation;
    origin = origin;
    client_request_id = request;
    emit_legacy_action = legacy;
    latest_vote_timestamp = vote.latest;
    selected_title = vote.title;
    commit_at = vote.deadline;
    invalid_timestamp = was_quarantined d || is_none (stored_vote d options);
  })
