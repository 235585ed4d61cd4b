-- ===== src/Correlated/Tests.antt =====
-- Runs of the correlated sends on small inputs, and the theorems at concrete inputs.
use home_assistant_whatsapp.Base.{
  List, Option, String, [], arith, false, length, none, refl, some, true, ◌+◌, ◌∷◌, ◌≡◌, ◌≢◌, ◌≤◌,
}
use home_assistant_whatsapp.Base.Int.{pos}
use home_assistant_whatsapp.Correlated.Admission.{
  IsAdmitted, add_alias_rollback, claim-IsAdmitted, claim_bounded,
}
use home_assistant_whatsapp.Correlated.AtMostOnce.{at_most_once, begin, complete-ne-missing}
use home_assistant_whatsapp.Correlated.Claim.{
  Request, add_alias, canonical, check_request, checked_media, claim, claim_locked, claim_new,
  new_record, replay, restage, save_alias, save_intent, set_default,
}
use home_assistant_whatsapp.Correlated.Fence.{is_admitted}
use home_assistant_whatsapp.Correlated.Finish.{complete, finish, missing, release, save_outcome}
use home_assistant_whatsapp.Correlated.Ledger.{
  fits, is_kept, is_request, is_retained, nul_text, prune, record_value, request_token, reserve,
  size_fits, snapshot, storage_size,
}
use home_assistant_whatsapp.Correlated.Outcome.{
  other_error, outcome, request_error, response, returned, safe_message_id, send_outcome, settle,
}
use home_assistant_whatsapp.Correlated.Replay.{IsOutcome, send_outcome-IsOutcome}
use home_assistant_whatsapp.Correlated.Start.{new_manager}
use home_assistant_whatsapp.Correlated.System.{
  Reach, Step, System, after_claim, after_complete, claims, completes, here, next,
}
use home_assistant_whatsapp.Correlated.Types.{
  Config, Manager, Media, Record, accepted, idempotency_retention, max_idempotency_records,
}
use home_assistant_whatsapp.Dict.{erase, filter_values, insert, lookup, map_values}
use home_assistant_whatsapp.Json.{
  Value, as_list, as_str, dict, from_dict, from_list, str, to_dict, to_list,
}
use home_assistant_whatsapp.Store.{SaveResult, save_failed, saved}

-- The last text of a list.
abbrev last_text : List Value → Option String
last_text [] = none
last_text (v ∷ []) = as_str v
last_text (v ∷ w ∷ vs) = last_text (w ∷ vs)

-- An encoding of size 100 whose digest is the client's request id, or "body" for a request.
abbrev pub config : Config
config = record {
  entry_id = "entry";
  json_size = λ v. some 100;
  json_digest = λ v. elim (as_list v) [ none ↦ some "body" | some xs ↦ last_text xs ];
}

abbrev running : Manager
running = record new_manager { persistence_available = true; started = true; is_owner = true }

abbrev pub request : Request
request = record {
  conversation_id = "direct_1";
  client_request_id = "r1";
  digest = "body";
  media = none;
  token = "r1";
}

abbrev message : Value
message = dict (from_dict (("message", str "hi") ∷ []))

unfoldable pub program : Unit {0}
unfolding claim check_request claim_locked claim_new replay restage add_alias save_alias save_intent
    canonical set_default checked_media prune is_kept is_retained fits request_token is_request
    size_fits storage_size snapshot record_value reserve nul_text complete finish release
    save_outcome send_outcome outcome settle safe_message_id response after_claim after_complete
    lookup insert erase filter_values map_values to_list from_list to_dict from_dict
program = tt

abbrev first : System
first =
    after_claim (begin running 0)
      (claim config running (str "direct_1") (str "r1") message none 0 0 saved) 0

first_lem :
    (first.flight ≡ ("r1", request) ∷ [])
    × (first.sent ≡ ("r1", 0) ∷ [])
    × (first.manager.active ≡ 1)
unfolding program
first_lem = (refl, refl, refl)

abbrev first_sent : System
first_sent =
    after_complete first request (complete first.manager request (returned (str "m1")) saved)

first_sent_lem :
    (first_sent.manager.drained ≡ true)
    × (lookup "r1" first_sent.manager.records
        ≡ some (record {
          digest = "body";
          created_at = pos 0;
          status = accepted;
          message_id = some "m1";
          error_code = none;
          media = none;
        }))
unfolding program
first_sent_lem = (refl, refl)

Step-claim : Step config (begin running 0) first
Step-claim = claims (str "direct_1") (str "r1") message none 0 0 saved (omega arith) (omega arith)

in_flight_request : lookup request.token first.flight ≡ some request
unfolding program
in_flight_request = refl

abbrev run : Reach config (begin running 0) first_sent
run = next (next here Step-claim) (completes request (returned (str "m1")) saved in_flight_request)

clock_ok : first_sent.clock ≤ idempotency_retention
unfolding program
clock_ok = omega arith

sent_at : lookup request.token first_sent.sent ≡ some 0
unfolding program
sent_at = refl

admitted_again :
    is_admitted
      (claim_locked config first_sent.manager request idempotency_retention idempotency_retention
        saved).result
    ≡ true
unfolding program
admitted_again = refl

at_most_once_example :
    (0 + idempotency_retention ≤ idempotency_retention)
    × (lookup request.token first_sent.flight ≡ none)
at_most_once_example =
    at_most_once config running 0 tt run request idempotency_retention idempotency_retention 0 saved
      clock_ok sent_at admitted_again

complete-ne-missing_example : (complete first.manager request other_error saved).result ≢ missing
complete-ne-missing_example =
    complete-ne-missing config running 0 tt (next here Step-claim) request other_error saved
      in_flight_request

-- A record whose send is pending, and the ledger that holds it.
abbrev pub pending_record : Record
pending_record = new_record request 5

abbrev holding : Manager
holding = record running { records = ("r1", pending_record) ∷ [] }

first_admitted : is_admitted (claim_locked config running request 3 4 saved).result ≡ true
unfolding program
first_admitted = refl

claim-IsAdmitted_example :
    (◌≡◌ {A = SaveResult} saved saved)
    × IsAdmitted config (prune 3 running) request 4 (claim_locked config running request 3 4 saved)
claim-IsAdmitted_example = claim-IsAdmitted config running request 3 4 saved first_admitted

claim_bounded_example :
    length (claim_locked config holding request 9 9 saved).manager.records ≤ max_idempotency_records
claim_bounded_example = claim_bounded config holding request 9 9 saved (omega arith)

send_outcome-IsOutcome_example : IsOutcome (send_outcome (request_error 503))
send_outcome-IsOutcome_example = send_outcome-IsOutcome (request_error 503)

abbrev media : Media
media = record {
  upload_tokens = "t1" ∷ [];
  principal_token = "p";
  sha256 = "s";
  size_bytes = 5;
  kind = "image";
  mime_type = "image/png";
  native_opus = false;
  file_name_digest = "f";
  route_binding_digest = "r";
}

abbrev with_media : Manager
with_media = record running { records = ("r1", record pending_record { media = some media }) ∷ [] }

media_held :
    lookup request.token with_media.records ≡ some (record pending_record { media = some media })
unfolding program
media_held = refl

add_alias_rollback_example :
    (add_alias config with_media request
      (record pending_record { media = some media })
      media
      "t2"
      save_failed).manager.records
    ≡ with_media.records
add_alias_rollback_example =
    add_alias_rollback config with_media request (record pending_record { media = some media })
      media "t2" media_held refl
