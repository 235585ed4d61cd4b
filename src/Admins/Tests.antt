-- ===== src/Admins/Tests.antt =====
-- Runs on two administrators, and the theorems at concrete inputs.
use home_assistant_whatsapp.Admins.Distinct.{
  by_contact, by_gap, is_shown, tally, chats, guest_admin_preview_lem,
  guest_admin_preview-is_distinct,
}
use home_assistant_whatsapp.Admins.Preview.{
  GuestAdminPreview, State, Subentry, User, admin_users, append_to, chat_counts, contacts_in,
  gaps_in, guest_admin_preview, insert_admin, is_unshared, map_admin, map_admins, map_person,
  mapped_recipient, person_ids_by_user, preview_of, recipients_by_person, safe_user_name,
  shared_gaps, sort_admins,
}
use home_assistant_whatsapp.Base.{
  Bool, str_eq, List, String, [], concat, false, is_distinct, keep, refl, some, true, ◌+◌, ◌∷◌, ◌≡◌,
}
use home_assistant_whatsapp.Dict.{insert, lookup}
use home_assistant_whatsapp.Helpers.{normalize_recipient, recipient_chat_id, without_separators}
use home_assistant_whatsapp.Json.{get, nonempty, str}
use home_assistant_whatsapp.Recipients.{normalize_recipient_lem}
use home_assistant_whatsapp.Text.{all_chars, is_digits, is_space, lstrip, rstrip, strip}

program : Unit {0}
unfolding normalize_recipient without_separators recipient_chat_id strip lstrip rstrip is_space
    is_digits all_chars guest_admin_preview preview_of admin_users insert_admin sort_admins
    append_to person_ids_by_user mapped_recipient recipients_by_person map_person map_admin
    map_admins contacts_in gaps_in chat_counts is_unshared shared_gaps safe_user_name nonempty get
    lookup insert keep
program = tt

number_read : normalize_recipient " +1 (555) 123-4567" ≡ some "15551234567"
unfolding program
number_read = refl

normalize_recipient_lem_example :
    (is_digits 7 15 "15551234567" ≡ true)
    × (normalize_recipient "15551234567" ≡ some "15551234567")
    × (recipient_chat_id "15551234567" ≡ some (concat "15551234567" "@c.us"))
normalize_recipient_lem_example =
    normalize_recipient_lem " +1 (555) 123-4567" "15551234567" number_read

abbrev admin : String → User
admin i = record {
  id = some i;
  name = some "Anna";
  is_admin = true;
  is_active = true;
  is_system_generated = false;
}

abbrev users : List User
users = admin "u2" ∷ admin "u1" ∷ []

abbrev states : List State
states = record { entity_id = "person.anna"; user_id = str "u1" } ∷ []

abbrev subentries : List Subentry
subentries =
    record {
      subentry_type = "recipient";
      config_data =
          ("person_entity_id", str "person.anna") ∷ ("recipient", str "+1 555 123 4567") ∷ [];
    }
    ∷ []

abbrev preview : GuestAdminPreview
preview = record {
  contacts =
      record {
        user_id = "u1";
        name = "Anna";
        person_entity_id = "person.anna";
        recipient = "15551234567";
        chat_id = "15551234567@c.us";
      }
      ∷ [];
  gaps = record { user_id = "u2"; name = "Anna"; reason = "no_person" } ∷ [];
}

preview_run : guest_admin_preview users states subentries ≡ preview
unfolding program
preview_run = refl

-- The administrator of one id.
abbrev of_one : String → String → Bool
of_one user_id name = str_eq user_id "u1"

guest_admin_preview_lem_example :
    tally (by_contact of_one) (guest_admin_preview users states subentries).contacts
      + tally (by_gap of_one) (guest_admin_preview users states subentries).gaps
    ≡ tally (is_shown of_one) users
guest_admin_preview_lem_example = guest_admin_preview_lem of_one users states subentries

guest_admin_preview-is_distinct_example :
    is_distinct (chats (guest_admin_preview users states subentries).contacts) ≡ true
guest_admin_preview-is_distinct_example = guest_admin_preview-is_distinct users states subentries
