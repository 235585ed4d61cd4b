-- ===== src/Correlated/Claim.antt =====
-- The first half of `async_execute`: under the lock, replay the saved state of a request or claim
-- it durably. What the caller then sends is `Finish`.
use home_assistant_whatsapp.Base.{
  List, Option, String, [], contains, false, guard, if◌then◌else◌, leb, length, none, not, remove,
  some, str_eq, true, ℕ, ◌++◌, ◌+◌, ◌>>=◌, ◌>>◌, ◌||◌, ◌∷◌,
}
use home_assistant_whatsapp.Base.Int.{pos}
use home_assistant_whatsapp.Correlated.Ledger.{fits, is_request, prune, request_token}
use home_assistant_whatsapp.Correlated.Media.{media_of}
use home_assistant_whatsapp.Correlated.Outcome.{failure, response}
use home_assistant_whatsapp.Correlated.Types.{
  Code, Config, Manager, Media, Outcome, Record, Response, busy, channel_unavailable, failed,
  max_upload_tokens, outcome_unknown, pending, persistence_unavailable, request_conflict, unknown,
}
use home_assistant_whatsapp.Dict.{Dict, erase, insert, lookup}
use home_assistant_whatsapp.Json.{Value, as_dict, as_str, dict, from_dict, null, str}
use home_assistant_whatsapp.Store.{SaveResult, save_cancelled, save_failed, saved}

-- A request that passed the checks made before the lock.
pub record Request : Type 0 where
  pub conversation_id : String
  pub client_request_id : String
  pub digest : String
  pub media : Option Media
  pub token : String

-- How the first half ended: a `ValueError`, a response, a `CancelledError` out of the store, or the
-- admission of one send.
pub data Claimed : Type 0 where
  invalid : Claimed
  reply : Response → Claimed
  cancelled : Claimed
  admitted : Request → Claimed

-- The new state, the records handed to `async_save` if it was called, and the end.
pub record Claim : Type 0 where
  pub manager : Manager
  pub written : Option (Dict Record)
  pub result : Claimed

-- `d.setdefault(k, v)`
unfoldable pub set_default : String → Value → Dict Value → Dict Value
set_default k v d = elim (lookup k d) [ none ↦ insert k v d | some _ ↦ d ]

-- The two defaults that normalise a request before it is hashed.
unfoldable pub canonical : Dict Value → Dict Value
canonical d = set_default "origin" (str "unknown") (set_default "reply_to_message_id" null d)

-- The media argument: absent, or a valid binding.
unfoldable pub checked_media : Option Value → Option (Option Media)
checked_media none = some none
checked_media (some v) = elim (media_of v) [ none ↦ none | some b ↦ some (some b) ]

-- What `_response` reads of a record.
abbrev pub record_outcome : Record → Outcome
record_outcome r = record {
  status = r.status;
  message_id = r.message_id;
  error_code = r.error_code;
}

abbrev pub replay_of : Request → Record → Response
replay_of q r = response q.conversation_id q.client_request_id (record_outcome r) true

abbrev pub refusal : Request → Code → Response
refusal q e = response q.conversation_id q.client_request_id (failure e) false

-- A claim that wrote nothing.
abbrev pub answer : Manager → Response → Claim
answer m r = record { manager = m; written = none; result = reply r }

abbrev pub with_aliases : Record → Media → List String → Record
with_aliases r b tokens = record r { media = some (record b { upload_tokens = tokens }) }

abbrev pub new_record : Request → ℕ → Record
new_record q created = record {
  digest = q.digest;
  created_at = pos created;
  status = pending;
  message_id = none;
  error_code = none;
  media = q.media;
}

module _ (c : Config) where
  -- The checks before the lock; `none` is a `ValueError`.
  unfoldable pub check_request : Value → Value → Value → Option Value → Option Request
  check_request conversation client body media = do
    conversation_id ← as_str conversation
    client_request_id ← as_str client
    guard (is_request c conversation_id client_request_id)
    d ← as_dict body
    digest ← c.json_digest (dict (from_dict (canonical d)))
    b ← checked_media media
    token ← request_token c conversation_id client_request_id
    some (record {
      conversation_id = conversation_id;
      client_request_id = client_request_id;
      digest = digest;
      media = b;
      token = token;
    })

  -- The ack of a new alias `token`, which stands in `m'` already.
  unfoldable pub save_alias : Manager → Manager → Request → Record → Media → SaveResult → Claim
  save_alias m m' q r b saved = record {
    manager = m';
    written = some m'.records;
    result = reply (replay_of q r);
  }
  save_alias m m' q r b save_failed = record {
    manager = record m { persistence_available = false };
    written = some m'.records;
    result = reply (refusal q persistence_unavailable);
  }
  save_alias m m' q r b save_cancelled = record {
    manager = m';
    written = some m'.records;
    result = cancelled;
  }

  -- An identical restaging of the media of a recorded request.
  unfoldable pub add_alias : Manager → Request → Record → Media → String → SaveResult → Claim
  unfolding save_alias
  add_alias m q r b token ack =
      let aliases = b.upload_tokens ++ token ∷ [] in
      let m' = record m { records = insert q.token (with_aliases r b aliases) m.records } in
      let undone = record m {
        records = insert q.token (with_aliases r b (remove token aliases)) m'.records;
      } in
      if contains token b.upload_tokens
      then answer m (replay_of q r)
      else if m.stopping || not m.is_owner
      then answer m (refusal q channel_unavailable)
      else if not m.persistence_available
      then answer m (refusal q persistence_unavailable)
      else if leb max_upload_tokens (length b.upload_tokens)
      then answer m (refusal q busy)
      else if not (fits c m'.records)
      then answer undone (refusal q persistence_unavailable)
      else save_alias undone m' q r b ack

  -- The request's media restages the record's media.
  unfoldable pub restage :
      Manager → Request → Record → Option Media → Option Media → SaveResult → Claim
  unfolding add_alias
  restage m q r (some (a)) (some b) ack = elim a.upload_tokens [
    | [] ↦ answer m (replay_of q r)
    | token ∷ _ ↦ add_alias m q r b token ack
  ]
  restage m q r _ _ ack = answer m (replay_of q r)

  -- A request whose token is recorded.
  unfoldable pub replay : Manager → Request → Record → SaveResult → Claim
  replay m q r ack =
      if str_eq r.digest q.digest
      then restage m q r q.media r.media ack
      else answer m (refusal q request_conflict)

  -- The ack of a new intent, which stands in `m` already.
  unfoldable pub save_intent : Manager → Request → Record → SaveResult → Claim
  save_intent m q r saved = record {
    manager = record m { capacity_exhausted = false; active = m.active + 1; drained = false };
    written = some m.records;
    result = admitted q;
  }
  save_intent m q r save_failed =
      let r' = record r { status = failed; error_code = some persistence_unavailable } in
      record {
        manager = record m { records = insert q.token r' m.records; persistence_available = false };
        written = some m.records;
        result = reply (response q.conversation_id q.client_request_id (record_outcome r') false);
      }
  save_intent m q r save_cancelled =
      let r' = record r { status = unknown; error_code = some outcome_unknown } in
      record {
        manager = record m { records = insert q.token r' m.records; persistence_available = false };
        written = some m.records;
        result = cancelled;
      }

  -- A request whose token is new.
  unfoldable pub claim_new : Manager → Request → ℕ → SaveResult → Claim
  unfolding save_intent
  claim_new m q created ack =
      let r = new_record q created in
      let m' = record m { records = insert q.token r m.records } in
      if m.stopping
      then answer m (refusal q channel_unavailable)
      else if not m.persistence_available
      then answer m (refusal q persistence_unavailable)
      else if not (fits c m'.records)
      then answer (record m { records = erase q.token m'.records; capacity_exhausted = true })
          (refusal q persistence_unavailable)
      else save_intent m' q r ack

  -- The part under the lock. `now` and `created` are its two readings of the clock.
  unfoldable pub claim_locked : Manager → Request → ℕ → ℕ → SaveResult → Claim
  claim_locked m q now created ack =
      let m' = prune now m in
      elim (lookup q.token m'.records) [
        | none ↦ claim_new m' q created ack
        | some r ↦ replay m' q r ack
      ]

  -- `async_execute` up to the send.
  unfoldable pub claim : Manager → Value → Value → Value → Option Value → ℕ → ℕ → SaveResult → Claim
  claim m conversation client body media now created ack =
      elim (check_request conversation client body media) [
        | none ↦ record { manager = m; written = none; result = invalid }
        | some q ↦ claim_locked m q now created ack
      ]
