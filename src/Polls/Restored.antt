-- ===== src/Polls/Restored.antt =====
-- `PendingPoll.as_dict` followed by `from_dict`.
use home_assistant_whatsapp.Base.{
  Bool, Option, String, [], ap, arith, false, leb, length, none, refl, some, true, ℕ, ◌∷◌, ◌≡◌, ◌≢◌,
  ◌≤◌,
}
use home_assistant_whatsapp.Dict.{Dict, lookup, map_values}
use home_assistant_whatsapp.Json.{
  Value, as_bool, as_dict, bool, get, get_default, nonempty, opt_str, str, to_dict-from_dict,
}
use home_assistant_whatsapp.Polls.Identity.{canonical_message_id}
use home_assistant_whatsapp.Polls.Invariant.{IsChoice, IsPoll}
use home_assistant_whatsapp.Polls.Storage.{
  as_storage, from_storage, is_coherent, is_nonempty, is_person, is_request_id, is_stored_origin,
  opt_time, optional_text, options_of, origin_name, origin_of, repaired_chat, seconds, settle_of,
  stored_vote, vote_time, was_quarantined,
}
use home_assistant_whatsapp.Polls.Timestamp.{
  is_marked, max_timestamp, microseconds, millionths_of, normalize_vote_timestamp,
}
use home_assistant_whatsapp.Polls.Types.{Origin, PendingPoll, application, automation}

-- An absent text, or one that passes a test.
abbrev pub Passes : (String → Bool) → Option String → Type 0
Passes p none = Unit
Passes p (some s) = p s ≡ true

-- An absent time, or one before the year 10000.
abbrev pub InRange : Option ℕ → Type 0
InRange none = Unit
InRange (some t) = t ≤ max_timestamp

-- No empty title and no empty action.
abbrev pub AreNamed : Dict (Option String) → Type 0
AreNamed [] = Unit
AreNamed ((title, action) ∷ d) = (is_nonempty title ≡ true) × Passes is_nonempty action × AreNamed d

-- An application poll has a request id and emits no action event.
abbrev pub IsCorrelated : Origin → Option String → Bool → Type 0
IsCorrelated automation request legacy = Unit
IsCorrelated application request legacy = (request ≢ none) × (legacy ≡ false)

-- A poll as the manager registers and updates them: well formed, with the texts and bounds that its
-- service schemas ask for, and a chat that needs no repair.
pub record IsStorable (p : PendingPoll) : Type 0 where
  pub well_formed : IsPoll p
  pub named : is_nonempty p.message_id ≡ true
  pub canonical : canonical_message_id p.message_id ≡ p.message_id
  pub addressed : is_nonempty p.chat_id ≡ true
  pub repaired : repaired_chat p.origin p.chat_id ≡ p.chat_id
  pub offered : AreNamed p.options
  pub enough : 2 ≤ length p.options
  pub settles : p.settle_seconds ≤ 30000000
  pub person : Passes is_person p.person_entity_id
  pub conversation : Passes is_nonempty p.conversation_id
  pub request : Passes is_request_id p.client_request_id
  pub correlated : IsCorrelated p.origin p.client_request_id p.emit_legacy_action
  pub vote_in_range : InRange p.latest_vote_timestamp
  pub deadline_in_range : InRange p.commit_at

optional_text-Passes :
    (p : String → Bool) (o : Option String) → Passes p o → optional_text p (opt_str o) ≡ some o
unfolding optional_text
optional_text-Passes p none h = refl
optional_text-Passes p (some s) h = rw h

options_of-AreNamed :
    (d : Dict (Option String)) → AreNamed d → options_of (map_values opt_str d) ≡ some d
unfolding options_of map_values
options_of-AreNamed [] h = refl
options_of-AreNamed ((title, action) ∷ d) h =
    rw (h.0, optional_text-Passes is_nonempty action h.1, options_of-AreNamed d h.2) refl

is_stored_origin-IsCorrelated :
    (origin : Origin) (request : Option String) (legacy : Bool)
    → IsCorrelated origin request legacy
    → is_stored_origin origin request legacy ≡ true
unfolding is_stored_origin
is_stored_origin-IsCorrelated automation request legacy h = refl
is_stored_origin-IsCorrelated application request legacy h = ground arith

vote_time-InRange : (o : Option ℕ) → InRange o → vote_time (opt_time o) seconds ≡ some o
unfolding vote_time normalize_vote_timestamp is_marked millionths_of microseconds
vote_time-InRange none h = refl
vote_time-InRange (some t) h = ground arith

IsChoice-coherent :
    (options : Dict (Option String)) (title : Option String) (latest deadline : Option ℕ)
    → IsChoice title options latest deadline
    → is_coherent options (record { latest = latest; title = title; deadline = deadline }) ≡ true
unfolding is_coherent
IsChoice-coherent options none latest deadline h = ground arith
IsChoice-coherent options (some title) latest deadline h = ground arith

any_text : (o : Option String) → optional_text (λ s. true) (opt_str o) ≡ some o
any_text none = optional_text-Passes _ none tt
any_text (some s) = optional_text-Passes _ (some s) refl

origin_of-name : (origin : Origin) → origin_of (str (origin_name origin)) ≡ some origin
unfolding origin_of
origin_of-name automation = refl
origin_of-name application = refl

module _ (p : PendingPoll) where
  abbrev d : Dict Value
  d = as_storage p

  field_vote :
      (get "latest_vote_timestamp" d ≡ opt_time p.latest_vote_timestamp)
      × (get "timestamp_unit" d ≡ seconds)
      × (get "commit_at" d ≡ opt_time p.commit_at)
      × (get "selected_title" d ≡ opt_str p.selected_title)
  unfolding get lookup as_storage
  field_vote = (refl, refl, refl, refl)

  stored_vote-as_storage :
      IsStorable p
      → stored_vote d p.options
        ≡ some (record {
          latest = p.latest_vote_timestamp;
          title = p.selected_title;
          deadline = p.commit_at;
        })
  unfolding stored_vote
  stored_vote-as_storage v = rw (
    field_vote.0,
    field_vote.1,
    field_vote.2,
    field_vote.3,
    vote_time-InRange p.latest_vote_timestamp v.vote_in_range,
    vote_time-InRange p.commit_at v.deadline_in_range,
    any_text p.selected_title,
    IsChoice-coherent p.options p.selected_title p.latest_vote_timestamp p.commit_at v.well_formed,
  )

  quarantined : was_quarantined d ≡ p.invalid_timestamp
  unfolding was_quarantined get lookup as_storage
  quarantined = ground arith

  module _ (v : IsStorable p) where
    read_ids :
        (nonempty (get "message_id" d) ≡ some p.message_id)
        × (nonempty (get "chat_id" d) ≡ some p.chat_id)
    unfolding nonempty get lookup as_storage
    read_ids = (rw v.named refl, rw v.addressed refl)

    read_options : as_dict (get "options" d) ≡ some (map_values opt_str p.options)
    unfolding get lookup as_storage
    read_options = ap some (to_dict-from_dict (map_values opt_str p.options))

    read_settle : settle_of (get "settle_seconds" d) ≡ some p.settle_seconds
    unfolding settle_of get lookup as_storage
    read_settle = ground (arith, v.settles)

    read_origin : origin_of (get_default "origin" (str "automation") d) ≡ some p.origin
    unfolding get_default lookup as_storage
    read_origin = origin_of-name p.origin

    read_legacy :
        as_bool (get_default "emit_legacy_action" (bool true) d) ≡ some p.emit_legacy_action
    unfolding get_default lookup as_storage
    read_legacy = refl

    read_texts :
        (optional_text is_request_id (get "client_request_id" d) ≡ some p.client_request_id)
        × (optional_text is_person (get "person_entity_id" d) ≡ some p.person_entity_id)
        × (optional_text is_nonempty (get "conversation_id" d) ≡ some p.conversation_id)
    unfolding get lookup as_storage
    read_texts = (
      optional_text-Passes is_request_id p.client_request_id v.request,
      optional_text-Passes is_person p.person_entity_id v.person,
      optional_text-Passes is_nonempty p.conversation_id v.conversation,
    )

    read_guards :
        (is_stored_origin p.origin p.client_request_id p.emit_legacy_action ≡ true)
        × (leb 2 (length p.options) ≡ true)
    read_guards = (
      is_stored_origin-IsCorrelated p.origin p.client_request_id p.emit_legacy_action v.correlated,
      ground (arith, v.enough),
    )

    -- A storable poll is read back from the store as it was.
    pub from_storage-as_storage : from_storage d ≡ some p
    unfolding from_storage
    from_storage-as_storage =
        rw
          (
            read_ids.0,
            read_ids.1,
            read_options,
            read_settle,
            read_origin,
            read_legacy,
            read_texts.0,
            read_guards.0,
            read_texts.1,
            read_texts.2,
            options_of-AreNamed p.options v.offered,
            read_guards.1,
            stored_vote-as_storage v,
            quarantined,
            v.canonical,
            v.repaired,
          )
          (ground arith)
