-- ===== src/Polls/Registry.antt =====
-- `PollRegistry`: pending polls, votes and settlement.
use home_assistant_whatsapp.Polls.Receipts.{sequence_of}
use home_assistant_whatsapp.Base.{
  Bool, List, Option, String, [], count, false, guard, if◌then◌else◌, is_none, keep, leb, none, not,
  some, str_eq, true, ℕ, ◌&&◌, ◌+◌, ◌==◌, ◌>>=◌, ◌>>◌, ◌||◌, ◌∷◌,
}
use home_assistant_whatsapp.Dict.{Dict, erase, insert, lookup}
use home_assistant_whatsapp.Json.{Value}
use home_assistant_whatsapp.Polls.Identity.{canonical_message_id, same_chat_id}
use home_assistant_whatsapp.Polls.Timestamp.{microseconds, valid_settle_timestamp}
use home_assistant_whatsapp.Polls.Types.{
  Origin, PendingPoll, PollOption, PollVote, Receipt, Registry, VoteRejection, application,
  automation, poll_chat_mismatch, sender_identity_mismatch, stale_vote, unknown_option,
  unknown_poll,
}

-- `{option.title: option.action for option in options}`
unfoldable pub options_dict : Dict (Option String) → List PollOption → Dict (Option String)
options_dict d [] = d
options_dict d (o ∷ os) = options_dict (insert o.title o.action d) os

-- An application poll must be durably correlated.
unfoldable pub is_correlated : Option String → Option String → Bool → Bool
is_correlated conversation_id client_request_id emit_legacy_action =
    elim client_request_id [ none ↦ false | some s ↦ leb 1 (count s) && leb (count s) 128 ]
    && not emit_legacy_action
    && elim conversation_id [ none ↦ false | some s ↦ not (str_eq s "") ]

abbrev pub is_admissible : Origin → Option String → Option String → Bool → Bool
is_admissible automation conversation request legacy = true
is_admissible application conversation request legacy = is_correlated conversation request legacy

-- The poll that a registration starts from, with no vote.
abbrev pub new_poll :
    String
    → String
    → List PollOption
    → ℕ
    → Option String
    → Option String
    → Origin
    → Option String
    → Bool
    → PendingPoll
new_poll key chat_id options settle_seconds person conversation origin request legacy = record {
  message_id = key;
  chat_id = chat_id;
  options = options_dict [] options;
  settle_seconds = settle_seconds;
  person_entity_id = person;
  conversation_id = conversation;
  origin = origin;
  client_request_id = request;
  emit_legacy_action = legacy;
  latest_vote_timestamp = none;
  selected_title = none;
  commit_at = none;
  invalid_timestamp = false;
}

-- `register`; `none` is a `PollValidationError`.
unfoldable pub register :
    Registry
    → String
    → String
    → List PollOption
    → ℕ
    → Option String
    → Option String
    → Origin
    → Option String
    → Bool
    → Option Registry
register g message_id chat_id options settle_seconds person conversation origin request legacy =
    let key = canonical_message_id message_id in
    let p = new_poll key chat_id options settle_seconds person conversation origin request legacy in
    if is_admissible origin conversation request legacy
    then some (record g { polls = insert key p g.polls })
    else none

-- `pending`
unfoldable pub pending : Registry → String → Option PendingPoll
pending g message_id = lookup (canonical_message_id message_id) g.polls

-- Whether a vote is not newer than the last one.
abbrev pub is_stale : Option ℕ → ℕ → Bool
is_stale none t = false
is_stale (some last) t = leb t last

-- `title is not None and title not in options`
abbrev pub is_unknown_title : Option String → Dict (Option String) → Bool
is_unknown_title none options = false
is_unknown_title (some title) options = is_none (lookup title options)

-- Whether a vote for a pending poll is accepted, and at what time it was cast.
pub data Verdict : Type 0 where
  refused : VoteRejection → Verdict
  timely : ℕ → Verdict

-- The last checks, once the vote has a time.
unfoldable pub judge_time : PendingPoll → PollVote → ℕ → ℕ → Verdict
judge_time p vote received_at t =
    if not (valid_settle_timestamp received_at)
      || not (valid_settle_timestamp (received_at + p.settle_seconds))
    then refused VoteRejection.invalid_timestamp
    else if is_stale p.latest_vote_timestamp t
    then refused stale_vote
    else if is_unknown_title vote.selected_title p.options
    then refused unknown_option
    else timely t

-- The checks of `apply_vote_with_reason` on a vote for a pending poll.
unfoldable pub judge : PendingPoll → PollVote → ℕ → Verdict
judge p vote received_at =
    if not (same_chat_id vote.poll_chat_id p.chat_id)
    then refused poll_chat_mismatch
    else if not (same_chat_id vote.sender p.chat_id)
    then refused sender_identity_mismatch
    else elim (microseconds false vote.timestamp) [
      | none ↦ refused VoteRejection.invalid_timestamp
      | some t ↦ judge_time p vote received_at t
    ]

-- The poll with an accepted vote.
unfoldable pub voted : PendingPoll → PollVote → ℕ → ℕ → PendingPoll
voted p vote received_at t = record p {
  latest_vote_timestamp = some t;
  invalid_timestamp = false;
  selected_title = vote.selected_title;
  commit_at = elim vote.selected_title [
    | none ↦ none
    | some title ↦ some (received_at + p.settle_seconds)
  ];
}

-- `apply_vote_with_reason`
unfoldable pub apply_vote : Registry → PollVote → ℕ → Registry × Option VoteRejection
apply_vote g vote received_at =
    let key = canonical_message_id vote.message_id in
    elim (lookup key g.polls) [
      | none ↦ (g, some unknown_poll)
      | some p ↦ elim (judge p vote received_at) [
        | refused e ↦ (g, some e)
        | timely t ↦ (record g { polls = insert key (voted p vote received_at t) g.polls }, none)
      ]
    ]

-- What `commit` checks of a pending poll, and the choice it settles.
unfoldable pub due_title : PendingPoll → ℕ → ℕ → Option String
due_title p vote_timestamp now = do
  latest ← p.latest_vote_timestamp
  title ← p.selected_title
  deadline ← p.commit_at
  guard (latest == vote_timestamp && leb deadline now)
  some title

-- How a `commit` ended: not due, settled with an optional action, or a `KeyError` on an option.
pub data Committed : Type 0 where
  not_due : Committed
  settled : Option String → Committed
  missing_option : Committed

-- `commit`
unfoldable pub commit : Registry → String → ℕ → ℕ → Registry × Committed
commit g message_id vote_timestamp now =
    let key = canonical_message_id message_id in
    elim (lookup key g.polls) [
      | none ↦ (g, not_due)
      | some p ↦ elim (due_title p vote_timestamp now) [
        | none ↦ (g, not_due)
        | some title ↦ elim (lookup title p.options) [
          | none ↦ (g, missing_option)
          | some action ↦ (record g { polls = erase key g.polls }, settled action)
        ]
      ]
    ]

-- `restore_uncommitted`
unfoldable pub restore_uncommitted : Registry → PendingPoll → Option (Dict Value) → Registry
restore_uncommitted g p selection =
    let polls = elim (lookup p.message_id g.polls) as (λ _. Dict PendingPoll) [
      | none ↦ insert p.message_id p g.polls
      | some _ ↦ g.polls
    ] in
    let selections = elim selection as (λ _. List Receipt) [
      | none ↦ g.selections
      | some s ↦ keep (λ r. not (sequence_of r.payload == sequence_of s)) g.selections
    ] in
    record g { polls = polls; selections = selections }
