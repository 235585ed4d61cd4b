-- ===== src/Polls/Tests.antt =====
-- Runs of the polls on small inputs, and the theorems at concrete inputs.
use home_assistant_whatsapp.Base.{
  List, [], arith, contains, drop, false, if◌then◌else◌, keep, leb, length, ltb, none, refl, some,
  take, true, ℕ, ◌&&◌, ◌+◌, ◌==◌, ◌∷◌, ◌≡◌, ◌≢◌, ◌⊎◌,
}
use home_assistant_whatsapp.Base.Int.{pos}
use home_assistant_whatsapp.Dict.{Dict, erase, insert, lookup, map_values}
use home_assistant_whatsapp.Json.{
  Value, dict, from_dict, from_list, get, nonempty, to_dict, to_list, get_default, int, is_text,
  list, nil, str,
}
use home_assistant_whatsapp.Polls.Build.{
  add_no_action, add_option, add_options, build_poll_options, is_text_input, stripped,
}
use home_assistant_whatsapp.Polls.Identity.{
  canonical_message_id, canonical_of, direct_phone_chat_id, is_phone_domain, is_phone_suffix,
  is_serialized, same_chat_id,
}
use home_assistant_whatsapp.Polls.Invariant.{IsValid, apply_vote-IsValid, register-IsValid}
use home_assistant_whatsapp.Polls.Journal.{IsJournal, remember_selection-IsJournal}
use home_assistant_whatsapp.Polls.Load.{
  is_huge, is_raising, is_unhashable, load, load_polls, load_stored, read_pending, read_poll,
}
use home_assistant_whatsapp.Polls.Options.{FitPoll, build_poll_options-FitPoll}
use home_assistant_whatsapp.Polls.Paging.{rows, selections_page}
use home_assistant_whatsapp.Polls.Receipts.{
  Page, is_row, last_sequence, payloads, remember_selection, selections, sequence_of,
}
use home_assistant_whatsapp.Polls.Registry.{
  apply_vote, commit, due_title, judge, judge_time, missing_option, new_poll, not_due, options_dict,
  pending, register, settled, timely, voted,
}
use home_assistant_whatsapp.Polls.Restored.{IsStorable, from_storage-as_storage}
use home_assistant_whatsapp.Polls.RoundTrip.{load-IsValid}
use home_assistant_whatsapp.Polls.Settlement.{
  IsNewer, IsOffered, apply_vote_lem, commit-ne-missing_option, commit_once, vote_commit,
}
use home_assistant_whatsapp.Polls.Storage.{
  as_storage, from_storage, repaired_chat, is_coherent, is_stored_origin, optional_text, options_of,
  origin_of, settle_of, stored_vote, vote_time, was_quarantined,
}
use home_assistant_whatsapp.Polls.Timestamp.{microseconds, valid_settle_timestamp}
use home_assistant_whatsapp.Polls.Types.{
  PendingPoll, PollOption, PollVote, Registry, VoteRejection, application, automation, new_registry,
}
use home_assistant_whatsapp.Text.{
  equals_ignoring_case, fold_char, folds_to, has_char, is_digits, is_space, lstrip, rstrip,
  span_digits, split, strip,
}

abbrev poll : PendingPoll
poll = record {
  message_id = "TOKEN";
  chat_id = "15551234567@c.us";
  options = ("Yes", some "YES") ∷ ("No", none) ∷ [];
  settle_seconds = 8000000;
  person_entity_id = some "person.anna";
  conversation_id = some "direct_1";
  origin = application;
  client_request_id = some "r1";
  emit_legacy_action = false;
  latest_vote_timestamp = none;
  selected_title = none;
  commit_at = none;
  invalid_timestamp = false;
}

abbrev registry : Registry
registry = record new_registry { polls = ("TOKEN", poll) ∷ [] }

registry-IsValid : IsValid registry
unfolding lookup
registry-IsValid = (refl, refl, refl, tt)

-- A vote from the poll's own chat, with a device number, at 10 seconds.
abbrev vote : PollVote
vote = record {
  message_id = "true_15551234567@c.us_TOKEN";
  sender = "15551234567:3@s.whatsapp.net";
  poll_chat_id = "15551234567@c.us";
  selected_title = some "Yes";
  timestamp = 10000000;
}

abbrev unvote : PollVote
unvote = record vote { selected_title = none }

program : Unit {0}
unfolding fold_char canonical_message_id canonical_of is_serialized split folds_to has_char lookup
    insert erase apply_vote judge judge_time voted commit due_title same_chat_id
    direct_phone_chat_id is_phone_suffix is_phone_domain span_digits equals_ignoring_case
    microseconds valid_settle_timestamp pending
program = tt

found : lookup (canonical_message_id vote.message_id) registry.polls ≡ some poll
unfolding program
found = refl

accepted : judge poll vote 11000000 ≡ timely 10000000
unfolding program
accepted = refl

unvote_accepted : judge poll unvote 11000000 ≡ timely 10000000
unfolding program
unvote_accepted = refl

abbrev voted_registry : Registry
voted_registry = (apply_vote registry vote 11000000).0

yes_offered : lookup "Yes" poll.options ≡ some (some "YES")
unfolding program
yes_offered = refl

vote_commit_example : (commit voted_registry vote.message_id 10000000 19000000).1 ≡ (
    if 10000000 == 10000000 && leb (11000000 + 8000000) 19000000
    then settled (some "YES")
    else not_due)
vote_commit_example =
    vote_commit registry vote 11000000 10000000 poll found accepted "Yes" (some "YES") 10000000
      19000000 refl yes_offered

apply_vote_lem_example :
    ((e : VoteRejection) × (apply_vote registry vote 11000000 ≡ (registry, some e)))
    ⊎ ((t : ℕ) × (microseconds false vote.timestamp ≡ some t)
        × IsNewer none t
        × (same_chat_id vote.sender poll.chat_id ≡ true)
        × IsOffered poll.options vote.selected_title
        × ((apply_vote registry vote 11000000).1 ≡ none)
        × (lookup (canonical_message_id vote.message_id) (apply_vote registry vote 11000000).0.polls
            ≡ some (record poll {
              latest_vote_timestamp = some t;
              selected_title = some "Yes";
              commit_at = some (11000000 + 8000000);
              invalid_timestamp = false;
            })))
apply_vote_lem_example = apply_vote_lem registry vote 11000000 poll found

commit-ne-missing_option_example : (commit registry "TOKEN" 10000000 19000000).1 ≢ missing_option
commit-ne-missing_option_example =
    commit-ne-missing_option registry "TOKEN" 10000000 19000000 registry-IsValid

commit_settled : (commit voted_registry vote.message_id 10000000 19000000).1 ≡ settled (some "YES")
unfolding program
commit_settled = refl

commit_once_example :
    (pending (commit voted_registry vote.message_id 10000000 19000000).0 vote.message_id ≡ none)
    × ((commit
          (commit voted_registry vote.message_id 10000000 19000000).0
          vote.message_id
          10000000
          20000000).1
        ≡ not_due)
commit_once_example =
    commit_once voted_registry vote.message_id 10000000 19000000 (some "YES") 10000000 20000000
      commit_settled

apply_vote-IsValid_example : IsValid voted_registry
apply_vote-IsValid_example = apply_vote-IsValid registry vote 11000000 registry-IsValid

-- The poll of an application is stored with a repaired chat and all its bounds.
poll-IsStorable : IsStorable poll
unfolding program is_digits repaired_chat
poll-IsStorable = record {
  well_formed = refl;
  named = refl;
  canonical = refl;
  addressed = refl;
  repaired = refl;
  offered = (refl, refl, (refl, tt, tt));
  enough = omega arith;
  settles = omega arith;
  person = refl;
  conversation = refl;
  request = refl;
  correlated = ((λ h. cc), refl);
  vote_in_range = tt;
  deadline_in_range = tt;
}

from_storage-as_storage_example : from_storage (as_storage poll) ≡ some poll
from_storage-as_storage_example = from_storage-as_storage poll poll-IsStorable

abbrev receipt : Dict Value
receipt = ("conversation_id", str "direct_1") ∷ []

empty-IsJournal : IsJournal registry
empty-IsJournal = record { ascending = tt; up_to = tt; bounded = omega arith }

remember_selection-IsJournal_example : IsJournal (remember_selection registry receipt 5 6)
remember_selection-IsJournal_example =
    remember_selection-IsJournal registry receipt 5 6 empty-IsJournal

-- A journal of two receipts.
abbrev journal : Registry
journal = remember_selection (remember_selection registry receipt 5 6) receipt 7 8

journal-IsJournal : IsJournal journal
journal-IsJournal =
    remember_selection-IsJournal (remember_selection registry receipt 5 6) receipt 7 8
      (remember_selection-IsJournal registry receipt 5 6 empty-IsJournal)

abbrev numbered : ℕ → Dict Value
numbered n = ("conversation_id", str "direct_1") ∷ ("selection_sequence", int (pos n)) ∷ []

abbrev first_page : Page
first_page = record { events = numbered 1 ∷ []; has_more = true; next_sequence = 1 }

first_page_lem : selections journal "direct_1" 0 1 9 ≡ some first_page
unfolding program selections payloads last_sequence remember_selection is_row is_text sequence_of
    get get_default keep
first_page_lem = refl

selections_page_example :
    (first_page.events ≡ take 1 (payloads (rows journal "direct_1" 0 9)))
    × (first_page.has_more ≡ ltb 1 (length (payloads (rows journal "direct_1" 0 9))))
    × (payloads (rows journal "direct_1" first_page.next_sequence 9)
        ≡ drop 1 (payloads (rows journal "direct_1" 0 9)))
selections_page_example =
    selections_page journal "direct_1" 0 9 0 journal-IsJournal first_page first_page_lem

-- One action and the option for no action.
abbrev actions : List (Dict Value)
actions = (("action", str "OPEN") ∷ ("title", str " Open ") ∷ []) ∷ []

abbrev built : List PollOption
built =
    record { title = "Open"; action = some "OPEN" } ∷ record { title = "None"; action = none } ∷ []

built_lem : build_poll_options actions "None" ≡ some built
unfolding program build_poll_options add_options add_option add_no_action stripped is_text_input
    strip lstrip rstrip is_space get contains
built_lem = refl

build_poll_options-FitPoll_example : FitPoll built
build_poll_options-FitPoll_example = build_poll_options-FitPoll actions "None" built built_lem

-- A store with a poll, and after it one whose origin is a list.
abbrev spoiled : Value
spoiled = dict (
    from_dict (
      (
        "polls",
        list (
            from_list (
              dict (from_dict (as_storage poll))
              ∷ dict (from_dict (insert "origin" (list nil) (as_storage poll)))
              ∷ [])),
      )
      ∷ []))

spoiled_raising :
    ((load spoiled 5).raising ≡ true) × ((load spoiled 5).registry.polls ≡ registry.polls)
unfolding program load load_stored load_polls read_poll read_pending is_raising is_huge
    is_unhashable from_storage as_storage is_digits repaired_chat get to_dict from_dict to_list
    from_list nonempty settle_of get_default origin_of optional_text is_stored_origin options_of
    map_values stored_vote was_quarantined vote_time is_coherent
spoiled_raising = (refl, refl)

load-IsValid_example : IsValid (load spoiled 5).registry
load-IsValid_example = load-IsValid spoiled 5

abbrev registered : Registry
registered = record registry {
  polls =
      (
        "TOKEN",
        record (new_poll "TOKEN" "15551234567@c.us" built 5 none none automation none true) {
          options = ("Open", some "OPEN") ∷ ("None", none) ∷ [];
        },
      )
      ∷ [];
}

registered_lem :
    register registry "TOKEN" "15551234567@c.us" built 5 none none automation none true
    ≡ some registered
unfolding program register options_dict
registered_lem = refl

register-IsValid_example : IsValid registered
register-IsValid_example =
    register-IsValid registry "TOKEN" "15551234567@c.us" built 5 none none automation none true
      registered registry-IsValid registered_lem
