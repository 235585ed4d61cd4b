-- ===== src/Groups/Routes.antt =====
-- The configured destinations of `GeneralGroupManager`. The opaque id of the channel registry is a
-- parameter, `opaque_id`.
use home_assistant_whatsapp.Base.{
  Bool, List, Option, String, [], concat, false, guard, if◌then◌else◌, none, not, some, str_eq, ℕ,
  ◌&&◌, ◌+◌, ◌==◌, ◌>>=◌, ◌>>◌, ◌∷◌,
}
use home_assistant_whatsapp.Dict.{Dict, keys, lookup}
use home_assistant_whatsapp.Groups.Identity.{
  group_id_matches, normalize_group_id, participant_alias,
}
use home_assistant_whatsapp.Json.{Value, bool}

pub record GroupSubentry : Type 0 where
  pub subentry_type : String
  pub group_id : Value
  pub enabled : Value
  pub account : Value

pub record Destination : Type 0 where
  pub conversation_id : String
  pub subentry_id : String
  pub group_jid : String
  pub bot_account : String

-- `==` of two destinations.
abbrev pub same_destination : Destination → Destination → Bool
same_destination d e =
    str_eq d.conversation_id e.conversation_id
    && str_eq d.subentry_id e.subentry_id
    && str_eq d.group_jid e.group_jid
    && str_eq d.bot_account e.bot_account

abbrev pub is_true : Value → Bool
is_true (bool b) = b
is_true _ = false

-- `_is_guest_group`, by the saved group of the guest registry.
abbrev pub is_guest_group : Option String → String → Bool
is_guest_group none group = false
is_guest_group (some g) group = str_eq g group

-- The subentries that configure a group.
unfoldable pub configured : String → Dict GroupSubentry → ℕ
configured group [] = 0
configured group ((k, e) ∷ es) =
    let rest = configured group es in
    if str_eq e.subentry_type "group" && group_id_matches e.group_id group then 1 + rest else rest

module _ (opaque_id : String → String → String → String) (guest_group : Option String) where
  abbrev pub token : String → String → String → String
  token subentry_id group account =
      opaque_id "general_group_conversation"
        (concat subentry_id (concat "\0" (concat group (concat "\0" account)))) "general_group"

  -- `_destination`
  unfoldable pub destination_of : String → GroupSubentry → Option Destination
  destination_of subentry_id e = do
    guard (str_eq e.subentry_type "group" && is_true e.enabled)
    group ← normalize_group_id e.group_id
    account ← participant_alias e.account
    guard (not (is_guest_group guest_group group))
    some (record {
      conversation_id = token subentry_id group account;
      subentry_id = subentry_id;
      group_jid = group;
      bot_account = account;
    })

  -- `resolve_subentry`
  unfoldable pub resolve_subentry : Dict GroupSubentry → String → Option Destination
  resolve_subentry es subentry_id = do
    e ← lookup subentry_id es
    d ← destination_of subentry_id e
    guard (configured d.group_jid es == 1)
    some d

  -- The loop of `resolve_conversation` over the ids of the subentries.
  unfoldable pub first_conversation : Dict GroupSubentry → String → List String → Option Destination
  first_conversation es c [] = none
  first_conversation es c (k ∷ ks) =
      let rest = first_conversation es c ks in
      elim (resolve_subentry es k) [
        | none ↦ rest
        | some d ↦ if str_eq d.conversation_id c then some d else rest
      ]

  -- `resolve_conversation`
  unfoldable pub resolve_conversation : Dict GroupSubentry → String → Option Destination
  resolve_conversation es c = first_conversation es c (keys es)
