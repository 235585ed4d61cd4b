-- ===== src/Admins/Preview.antt =====
-- `async_guest_admin_preview`: the administrators of Home Assistant and their WhatsApp contacts.
use text.Mathlib.Text.{starts_with}
use home_assistant_whatsapp.Base.{
  Bool, List, Option, String, [], guard, if◌then◌else◌, keep, none, not, or_else, some, str_eq, ℕ,
  ◌&&◌, ◌++◌, ◌+◌, ◌==◌, ◌>>=◌, ◌>>◌, ◌∷◌,
}
use home_assistant_whatsapp.Dict.{Dict, insert, lookup}
use home_assistant_whatsapp.Helpers.{normalize_recipient, recipient_chat_id}
use home_assistant_whatsapp.Json.{Value, as_str, get, nonempty}
use home_assistant_whatsapp.Text.{strip, text_leb}
-- The attributes that are read of a user; an id that is no text is absent.
use text.Mathlib.Text.{starts_with}

pub record User : Type 0 where
  pub id : Option String
  pub name : Option String
  pub is_admin : Bool
  pub is_active : Bool
  pub is_system_generated : Bool

-- An entity's state, with its `user_id` attribute.
pub record State : Type 0 where
  pub entity_id : String
  pub user_id : Value

pub record Subentry : Type 0 where
  pub subentry_type : String
  pub config_data : Dict Value

-- A user that passed the first filter.
pub record Admin : Type 0 where
  pub user_id : String
  pub name : String

pub record GuestAdminContact : Type 0 where
  pub user_id : String
  pub name : String
  pub person_entity_id : String
  pub recipient : String
  pub chat_id : String

pub record GuestAdminGap : Type 0 where
  pub user_id : String
  pub name : String
  pub reason : String

pub record GuestAdminPreview : Type 0 where
  pub contacts : List GuestAdminContact
  pub gaps : List GuestAdminGap

-- `_safe_user_name`
unfoldable pub safe_user_name : Option String → String
safe_user_name none = "Unnamed administrator"
safe_user_name (some s) = if str_eq (strip s) "" then "Unnamed administrator" else strip s

unfoldable pub admin_users : List User → List Admin
admin_users [] = []
admin_users (u ∷ us) =
    let rest = admin_users us in
    if u.is_admin && u.is_active && not u.is_system_generated
    then elim u.id [
      | none ↦ rest
      | some i ↦ record { user_id = i; name = safe_user_name u.name } ∷ rest
    ]
    else rest

-- A stable sort by id.
unfoldable pub insert_admin : Admin → List Admin → List Admin
insert_admin a [] = a ∷ []
insert_admin a (b ∷ bs) =
    let rest = insert_admin a bs in if text_leb a.user_id b.user_id then a ∷ b ∷ bs else b ∷ rest

unfoldable pub sort_admins : List Admin → List Admin
sort_admins [] = []
sort_admins (a ∷ as') = insert_admin a (sort_admins as')

-- `d.setdefault(k, []).append(v)`
unfoldable pub append_to : String → String → Dict (List String) → Dict (List String)
append_to k v d = insert k (or_else (lookup k d) [] ++ v ∷ []) d

-- `person_ids_by_user`
unfoldable pub person_ids_by_user : Dict (List String) → List State → Dict (List String)
person_ids_by_user d [] = d
person_ids_by_user d (s ∷ ss) = elim (nonempty s.user_id) [
  | none ↦ person_ids_by_user d ss
  | some u ↦
      person_ids_by_user
        (if starts_with s.entity_id "person." then append_to u s.entity_id d else d) ss
]

-- The recipient of a subentry, with its person.
unfoldable pub mapped_recipient : Subentry → Option (String × String)
mapped_recipient e = do
  guard (str_eq e.subentry_type "recipient")
  person ← as_str (get "person_entity_id" e.config_data)
  raw ← as_str (get "recipient" e.config_data)
  recipient ← normalize_recipient raw
  some (person, recipient)

-- `recipient_by_person`
unfoldable pub recipients_by_person : Dict (List String) → List Subentry → Dict (List String)
recipients_by_person d [] = d
recipients_by_person d (e ∷ es) = elim (mapped_recipient e) [
  | none ↦ recipients_by_person d es
  | some (person, recipient) ↦ recipients_by_person (append_to person recipient d) es
]

pub data Mapping : Type 0 where
  contact : GuestAdminContact → Mapping
  gap : GuestAdminGap → Mapping

abbrev pub gap_for : Admin → String → Mapping
gap_for a reason = gap (record { user_id = a.user_id; name = a.name; reason = reason })

-- The recipient of an administrator's one person; it is normalised already, and so has a chat id.
unfoldable pub map_person : Admin → String → List String → Mapping
map_person a person [] = gap_for a "no_contact"
map_person a person (r ∷ []) = contact (record {
  user_id = a.user_id;
  name = a.name;
  person_entity_id = person;
  recipient = r;
  chat_id = or_else (recipient_chat_id r) "";
})
map_person a person (r ∷ s ∷ rs) = gap_for a "multiple_contacts"

-- One turn of the loop over the administrators, by the persons of the administrator.
unfoldable pub map_admin : Dict (List String) → Admin → List String → Mapping
map_admin recipients a [] = gap_for a "no_person"
map_admin recipients a (person ∷ []) = map_person a person (or_else (lookup person recipients) [])
map_admin recipients a (p ∷ q ∷ ps) = gap_for a "multiple_persons"

unfoldable pub map_admins : Dict (List String) → Dict (List String) → List Admin → List Mapping
map_admins persons recipients [] = []
map_admins persons recipients (a ∷ as') =
    map_admin recipients a (or_else (lookup a.user_id persons) [])
    ∷ map_admins persons recipients as'

unfoldable pub contacts_in : List Mapping → List GuestAdminContact
contacts_in [] = []
contacts_in (contact c ∷ ms) = c ∷ contacts_in ms
contacts_in (gap g ∷ ms) = contacts_in ms

unfoldable pub gaps_in : List Mapping → List GuestAdminGap
gaps_in [] = []
gaps_in (contact c ∷ ms) = gaps_in ms
gaps_in (gap g ∷ ms) = g ∷ gaps_in ms

-- `counts`
unfoldable pub chat_counts : Dict ℕ → List GuestAdminContact → Dict ℕ
chat_counts d [] = d
chat_counts d (c ∷ cs) = chat_counts (insert c.chat_id (or_else (lookup c.chat_id d) 0 + 1) d) cs

-- `counts[contact.chat_id] == 1`
unfoldable pub is_unshared : Dict ℕ → GuestAdminContact → Bool
is_unshared counts c = or_else (lookup c.chat_id counts) 0 == 1

unfoldable pub shared_gaps : Dict ℕ → List GuestAdminContact → List GuestAdminGap
shared_gaps counts [] = []
shared_gaps counts (c ∷ cs) =
    let rest = shared_gaps counts cs in
    if is_unshared counts c
    then rest
    else record { user_id = c.user_id; name = c.name; reason = "shared_contact" } ∷ rest

-- The preview of the administrators' mappings.
unfoldable pub preview_of : List Mapping → GuestAdminPreview
preview_of ms =
    let counts = chat_counts [] (contacts_in ms) in
    record {
      contacts = keep (is_unshared counts) (contacts_in ms);
      gaps = gaps_in ms ++ shared_gaps counts (contacts_in ms);
    }

-- `async_guest_admin_preview`
unfoldable pub guest_admin_preview : List User → List State → List Subentry → GuestAdminPreview
unfolding preview_of
guest_admin_preview users states subentries = preview_of (
    map_admins (person_ids_by_user [] states) (recipients_by_person [] subentries)
      (sort_admins (admin_users users)))
