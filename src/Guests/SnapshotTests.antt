-- ===== src/Guests/SnapshotTests.antt =====
-- A stored snapshot that `_validate` accepts.
use mathlib.Core.Path.{subst}
use home_assistant_whatsapp.Base.{
  List, String, [], ap, concat, contains, inl, inr, or_else, refl, some, some-inj, true, ◌∙◌, ◌∷◌,
  ◌≡◌,
}
use home_assistant_whatsapp.Base.Int.{pos}
use home_assistant_whatsapp.Dict.{IsDict, lookup}
use home_assistant_whatsapp.Guests.Book.{IsGuestData}
use home_assistant_whatsapp.Guests.Identity.{
  fold_pattern, group_domain, group_jid, group_rest, is_opaque, jid, jid_domain, lower_text,
  matches_word, without_prefix,
}
use home_assistant_whatsapp.Guests.Load.{
  account_of, ended_of, group_of, interval_of, kind_of, observed_of, provisioning_of, revision_of,
  role_of, saved_group_of, stored_aliases, stored_identity, stored_member, stored_members,
  stored_participants, stored_route, stored_state, timestamp_of, validated,
}
use home_assistant_whatsapp.Guests.Types.{GuestData, empty_data}
use home_assistant_whatsapp.Guests.Linked.{AreDistinct}
use home_assistant_whatsapp.Guests.Validated.{HasKeysOnce, validated-IsGuestData}
use home_assistant_whatsapp.Json.{
  Value, as_dict, cons, dict, from_dict, get, int, is_version, list, nil, null, str, to_dict,
  to_list,
}
use home_assistant_whatsapp.Polls.Timestamp.{millionths_of}
use home_assistant_whatsapp.Text.{all_chars, fold_char, lower_char, span_digits}

abbrev hex : String
hex = "0123456789abcdef0123456789abcdef"

abbrev whose : String
whose = concat "participant_" hex

abbrev aliases : Value
aliases = dict (from_dict (("aliases", list (cons (str "7@c.us") nil)) ∷ []))

abbrev resident : Value
resident = dict (
    from_dict (
      ("participant_id", str whose)
      ∷ ("kind", str "guest")
      ∷ ("role", str "participant")
      ∷ ("status", str "active")
      ∷ ("started_at", int (pos 9))
      ∷ ("route", str (concat "guest_direct_" hex))
      ∷ []))

abbrev saved_group : Value
saved_group = dict (
    from_dict (
      ("id", str (concat "group_" hex))
      ∷ ("jid", str "12036@g.us")
      ∷ ("conversation_id", str (concat "group_conversation_" hex))
      ∷ []))

abbrev snapshot : Value
snapshot = dict (
    from_dict (
      ("version", int (pos 1))
      ∷ ("account", str "1@c.us")
      ∷ ("group", saved_group)
      ∷ ("participants", dict (from_dict ((whose, aliases) ∷ [])))
      ∷ ("memberships", dict (from_dict ((concat "membership_" hex, resident) ∷ [])))
      ∷ ("revision", int (pos 3))
      ∷ ("observed_at", null)
      ∷ ("provisioning_status", str "ready")
      ∷ []))

abbrev stored : GuestData
stored = or_else (validated snapshot) empty_data

snapshot-HasKeysOnce : HasKeysOnce snapshot
unfolding get lookup from_dict to_dict
snapshot-HasKeysOnce d es e (inl f) =
    subst IsDict (some-inj (ap (λ x. as_dict (get "participants" x)) (some-inj e) ∙ f)) (refl, tt)
snapshot-HasKeysOnce d es e (inr f) =
    subst IsDict (some-inj (ap (λ x. as_dict (get "memberships" x)) (some-inj e) ∙ f)) (refl, tt)

snapshot-validated : validated snapshot ≡ some stored
unfolding validated stored_state stored_participants stored_members stored_member stored_identity
    stored_route stored_aliases interval_of ended_of timestamp_of revision_of observed_of
    provisioning_of kind_of role_of account_of group_of saved_group_of millionths_of is_version get
    lookup from_dict to_dict to_list contains is_opaque without_prefix all_chars jid jid_domain
    group_jid group_rest group_domain matches_word fold_pattern fold_char lower_text lower_char
    span_digits
snapshot-validated = refl

validated-IsGuestData_example :
    IsGuestData stored
    × AreDistinct stored.participants
    × ((i a : String) (xs : List String)
        → lookup i stored.participants ≡ some xs
        → contains a xs ≡ true
        → jid a ≡ some a)
validated-IsGuestData_example =
    validated-IsGuestData snapshot stored snapshot-HasKeysOnce snapshot-validated
