-- ===== src/Groups/Tests.antt =====
-- Examples of the general groups.
use home_assistant_whatsapp.Base.{String, [], concat, false, refl, some, str_eq, true, ◌∷◌, ◌≡◌}
use home_assistant_whatsapp.Dict.{Dict, insert, lookup}
use home_assistant_whatsapp.Groups.Identity.{
  alias_domain, group_id_matches, is_group_rest, normalize_group_id, participant_alias,
}
use home_assistant_whatsapp.Groups.Review.{
  GroupMember, Waha, accepted, member_names, number_of, put_alias, put_names, review, review_member,
  review_roster, send_group, verify,
}
use home_assistant_whatsapp.Groups.Roster.{IsAliasOf, IsKnown, IsMember, review_roster_lem}
use home_assistant_whatsapp.Groups.Routes.{
  GroupSubentry, configured, destination_of, first_conversation, is_guest_group,
  resolve_conversation, resolve_subentry, token,
}
use home_assistant_whatsapp.Groups.Verified.{IsEligible, send_group_lem}
use home_assistant_whatsapp.Guests.Routes.{is_phone}
use home_assistant_whatsapp.Json.{bool, null, str}
use home_assistant_whatsapp.Text.{
  has_char, is_space, lower, lower_char, lstrip, rpartition, rstrip, span_digits, strip,
}

abbrev opaque : String → String → String → String
opaque purpose text prefix = concat prefix (concat "_" (concat purpose text))

abbrev subentries : Dict GroupSubentry
subentries =
    (
      "s1",
      record {
        subentry_type = "group";
        group_id = str " 120-3 ";
        enabled = bool true;
        account = str "1@S.whatsapp.net";
      },
    )
    ∷ []

abbrev bot : GroupMember
bot = record { id = str "1@c.us"; pn = null; role = "participant" }

abbrev neighbour : GroupMember
neighbour = record { id = str "9@lid"; pn = str "2@s.whatsapp.net"; role = "admin" }

abbrev gone : GroupMember
gone = record { id = str "?"; pn = null; role = "left" }

abbrev waha : Waha
waha = record {
  capable = true;
  working = true;
  account_id = str "1@c.us";
  roster = bot ∷ neighbour ∷ gone ∷ [];
}

abbrev known : Dict String
known = ("1@c.us", "1@c.us") ∷ ("9@lid", "2@c.us") ∷ ("2@c.us", "2@c.us") ∷ []

abbrev conversation : String
conversation = token opaque (some "77@g.us") "s1" "120-3@g.us" "1@c.us"

roster-reviewed : review_roster [] waha.roster ≡ accepted known
unfolding review_roster review_member member_names number_of put_names put_alias participant_alias
    alias_domain lookup insert is_phone rpartition span_digits lower lower_char
roster-reviewed = refl

review_roster_lem_example :
    ((m : GroupMember) → IsMember m waha.roster → str_eq m.role "left" ≡ false → IsKnown known m)
    × ((a j : String)
        → lookup a known ≡ some j
        → (m : GroupMember) × IsMember m waha.roster × IsAliasOf a j m)
review_roster_lem_example = review_roster_lem known waha.roster roster-reviewed

sent :
    send_group opaque (some "77@g.us") subentries (some "78@g.us") subentries waha conversation
    ≡ accepted "120-3@g.us"
unfolding send_group verify review resolve_conversation first_conversation resolve_subentry
    destination_of configured group_id_matches normalize_group_id is_group_rest has_char strip
    lstrip rstrip is_space review_roster review_member member_names number_of put_names put_alias
    participant_alias alias_domain lookup insert is_phone rpartition span_digits lower lower_char
sent = refl

send_group_lem_example :
    (k : String) × (account : String) × (aliases : Dict String) × (b : String) × IsEligible
      subentries k "120-3@g.us" account
    × IsEligible subentries k "120-3@g.us" account
    × (is_guest_group (some "77@g.us") "120-3@g.us" ≡ false)
    × (is_guest_group (some "78@g.us") "120-3@g.us" ≡ false)
    × (waha.capable ≡ true)
    × (waha.working ≡ true)
    × (participant_alias waha.account_id ≡ some account)
    × (review_roster [] waha.roster ≡ accepted aliases)
    × (lookup account aliases ≡ some b)
send_group_lem_example =
    send_group_lem opaque (some "77@g.us") (some "78@g.us") subentries subentries waha conversation
      "120-3@g.us" sent
