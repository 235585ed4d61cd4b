-- ===== src/Correlated/StoredTests.antt =====
-- Runs of a restart on a small stored ledger, and the theorems at concrete inputs.
use home_assistant_whatsapp.Base.{
  none, ◌⊎◌, String, [], all, contains, false, refl, some, true, ◌∷◌, ◌≡◌, ◌≢◌,
}
use home_assistant_whatsapp.Correlated.Claim.{Request, claim_locked}
use home_assistant_whatsapp.Correlated.Fence.{is_admitted}
use home_assistant_whatsapp.Correlated.Ledger.{prune_changes, snapshot}
use home_assistant_whatsapp.Correlated.Media.{has_keys, is_digest}
use home_assistant_whatsapp.Correlated.Outcome.{code_of, status_of}
use home_assistant_whatsapp.Correlated.Restart.{
  IsPast, IsRetained, restart_available, restart_fence, restart_records,
}
use home_assistant_whatsapp.Correlated.Start.{
  Start, has_pending, instant_of, interrupt, new_manager, restore, restore_record, restore_records,
  save_start, settle_start, start, start_records, stored_media,
}
use home_assistant_whatsapp.Correlated.Types.{Record, find_named, outcome_unknown, pending, unknown}
use home_assistant_whatsapp.Dict.{Dict, IsDict, keys, lookup}
use home_assistant_whatsapp.Json.{get}
use home_assistant_whatsapp.Store.{loaded, saved}
use home_assistant_whatsapp.Text.{all_chars}
use home_assistant_whatsapp.Correlated.Tests.{config, pending_record, program, request}

-- A digest, and a stored ledger under it.
abbrev hex : String
hex = "0123456789abcdef0123456789abcdef0123456789abcdef0123456789abcdef"

abbrev stored_record : Record
stored_record = record pending_record { digest = hex }

abbrev stored : Dict Record
stored = (hex, stored_record) ∷ []

abbrev stored_request : Request
stored_request = record request { token = hex; digest = hex }

stored-IsDict : IsDict stored
unfolding program
stored-IsDict = (refl, tt)

stored_read : restore config (snapshot stored) ≡ some stored
unfolding program restore restore_records restore_record stored_media instant_of status_of code_of
    find_named has_keys all keys contains is_digest all_chars get lookup
stored_read = refl

stored_held : lookup stored_request.token stored ≡ some stored_record
unfolding program
stored_held = refl

abbrev restarted : Start
restarted = start config new_manager (loaded (some (snapshot stored))) 9 saved

restarted_available : restarted.manager.persistence_available ≡ true
unfolding program restore restore_records restore_record stored_media instant_of status_of code_of
    find_named has_keys all keys contains is_digest all_chars get start start_records settle_start
    save_start prune_changes has_pending interrupt
restarted_available = refl

restart_fence_example :
    is_admitted (claim_locked config restarted.manager stored_request 10 11 saved).result ≡ false
restart_fence_example =
    restart_fence config new_manager (snapshot stored) stored 9 saved (refl, refl, refl) stored_read
      stored_request stored_record 10 11 saved stored-IsDict stored_held refl

restart_records_example :
    ((pending ≡ pending)
      × (lookup hex restarted.manager.records
          ≡ some (record stored_record { status = unknown; error_code = some outcome_unknown })))
    ⊎ ((pending ≢ pending)
        × ((pending ≡ unknown) ⊎ IsRetained stored_record.created_at 9)
        × (lookup hex restarted.manager.records ≡ some stored_record))
    ⊎ ((pending ≢ pending)
        × (pending ≢ unknown)
        × IsPast stored_record.created_at 9
        × (lookup hex restarted.manager.records ≡ none))
restart_records_example =
    restart_records config new_manager (snapshot stored) stored 9 saved (refl, refl, refl)
      stored_read hex stored_record stored-IsDict stored_held

restart_available_example :
    (restarted.manager.records ≡ stored)
    ⊎ ((saved ≡ saved) × (restarted.written ≡ some restarted.manager.records))
restart_available_example =
    restart_available config new_manager (snapshot stored) stored 9 saved (refl, refl, refl)
      stored_read restarted_available
