-- ===== src/Guests/Tests.antt =====
-- Runs and examples of the guest registry.
use home_assistant_whatsapp.Guests.Sample.{
  marks, marks-inj, before, roster, joined_hint, reading, outcome, before-IsGuestData,
  before-AreUnused, before-AllAgree, before-AreDistinct, before-AreFresh, item, roster-ItemsAgree,
}
use home_assistant_whatsapp.Base.{
  Bool, ap, arith, some-inj, sym, List, String, [], contains, false, keep, or_else, refl, some,
  str_eq, true, ℕ, ◌∷◌, ◌≡◌, ◌⊎◌,
}
use home_assistant_whatsapp.Dict.{Dict, erase, insert, lookup}
use home_assistant_whatsapp.Guests.Book.{IsGuestData}
use home_assistant_whatsapp.Guests.Completion.{reconciled_total}
use home_assistant_whatsapp.Guests.Gate.{IsRoute, reconcile-with_route}
use home_assistant_whatsapp.Guests.Identity.{
  fold_pattern, jid, jid_domain, lower_text, matches_word,
}
use home_assistant_whatsapp.Guests.Linked.{AreDistinct}
use home_assistant_whatsapp.Guests.Matching.{
  IsAccount, IsEnrolled, IsListed, reconciled-AreDistinct, reconciled_matches,
}
use home_assistant_whatsapp.Guests.Provision.{Done, account_matches, save_data}
use home_assistant_whatsapp.Guests.Reconcile.{
  Proof, Roll, RosterItem, admit_all, admit_entry, admit_item, close_absent, enroll, first_roll,
  is_verified, reconcile, reconciled, update_member,
}
use home_assistant_whatsapp.Guests.Hints.{
  HintType, collect_hints, hint_of, join, matching_times, provenance,
}
use home_assistant_whatsapp.Guests.Roster.{
  alias_owner, closed_memberships, erase_all, expired, insert_closed, insert_text, jids, member_ids,
  member_of, owners_of, prune_data, pruned_memberships, resolve_identity_of, resolve_jids,
  retained_participants, sort_texts, sorted_set, text_set,
}
use home_assistant_whatsapp.Guests.Routes.{is_phone, resolve_route, routed, with_route}
use home_assistant_whatsapp.Guests.Rows.{IsItem}
use home_assistant_whatsapp.Guests.Types.{
  admin, guest, GuestData, GuestRegistry, Membership, MembershipChange, is_active,
}
use home_assistant_whatsapp.Polls.Load.{is_seen}
use home_assistant_whatsapp.Store.{saved}
use home_assistant_whatsapp.Text.{fold_char, lower_char, rpartition, span_digits}

reading-some : reading ≡ some (outcome.0, outcome.1)
unfolding reconciled collect_hints hint_of jid jid_domain matches_word fold_pattern fold_char
    lower_text lower_char span_digits lookup insert erase contains admit_all admit_item admit_entry
    enroll update_member provenance matching_times is_seen resolve_identity_of jids resolve_jids
    owners_of alias_owner sorted_set text_set sort_texts insert_text member_of close_absent
    prune_data pruned_memberships closed_memberships insert_closed expired erase_all
    retained_participants member_ids
reading-some = refl

reconciled-AreDistinct_example : IsGuestData outcome.0 × AreDistinct outcome.0.participants
reconciled-AreDistinct_example =
    reconciled-AreDistinct marks marks-inj 0 before roster (joined_hint ∷ []) 200 outcome.0
      outcome.1 before-IsGuestData before-AreUnused reading-some before-AreDistinct

reconciled_matches_example :
    ((k : String) (m : Membership)
      → lookup k outcome.0.memberships ≡ some m
      → is_active m.status ≡ true
      → IsListed outcome.0 roster m)
    × ((x : RosterItem) → IsItem x roster → IsEnrolled outcome.0 x ⊎ IsAccount before roster x)
    × (outcome.0.revision ≡ 5)
reconciled_matches_example =
    reconciled_matches marks marks-inj 0 before roster (joined_hint ∷ []) 200 outcome.0 outcome.1
      before-IsGuestData before-AreUnused reading-some before-AreFresh

-- A guest in the roster does not pass for the account.
guest_apart : ¬ IsAccount before roster (item "3@s.whatsapp.net" guest admin)
unfolding jids jid jid_domain matches_word fold_pattern fold_char lower_text lower_char span_digits
    contains
guest_apart (account, js, bound, aliases, linked) =
    let mine : String → Bool = λ a. str_eq "1@c.us" a in
    let own : mine account ≡ true = ap mine (sym (some-inj bound)) in
    let same : "3@c.us" ∷ [] ≡ js = some-inj aliases in
    let held : contains "3@c.us" js ≡ true = ap (contains "3@c.us") (sym same) in
    let wrong = linked mine own (before-AllAgree mine) (roster-ItemsAgree mine) "3@c.us" held in
    absurd (ground (arith, wrong))

-- The registry that reads the roster.
abbrev pub attached : GuestRegistry
attached = record {
  guest_data = before;
  storage_healthy = true;
  confirmed = false;
  create_started_here = false;
}

abbrev pub verified : Proof
verified = record {
  verified_bot_jid = "1@c.us";
  security_verified = true;
  bot_admin_verified = true;
}

abbrev read : Done (List MembershipChange)
read = reconcile marks 0 attached roster (some 200) verified (joined_hint ∷ []) 210 saved

reached : with_route read.registry "r2" (λ p. str_eq p "3@c.us") ≡ some "3@c.us"
unfolding reconciled collect_hints hint_of jid jid_domain matches_word fold_pattern fold_char
    lower_text lower_char span_digits lookup insert erase contains admit_all admit_item admit_entry
    enroll update_member provenance matching_times is_seen resolve_identity_of jids resolve_jids
    owners_of alias_owner sorted_set text_set sort_texts insert_text member_of close_absent
    prune_data pruned_memberships closed_memberships insert_closed expired erase_all
    retained_participants member_ids reconcile account_matches save_data with_route resolve_route
    routed is_phone rpartition keep
reached = refl

reconcile-with_route_example :
    (str_eq "3@c.us" "3@c.us" ≡ true)
    × (is_verified attached verified ≡ true)
    × ((k : String) × (m : Membership) × IsRoute read.registry.guest_data "r2" "3@c.us" k m
        × IsListed read.registry.guest_data roster m)
reconcile-with_route_example =
    reconcile-with_route marks marks-inj 0 attached roster (some 200) verified (joined_hint ∷ [])
      210 saved "r2" (λ p. str_eq p "3@c.us") "3@c.us" before-IsGuestData before-AreUnused reached

abbrev hinted : Dict (HintType × ℕ)
hinted = ("4@lid", (join, 150)) ∷ []

abbrev admitted_roll : Roll
admitted_roll =
    or_else
      (admit_all marks before.account before.observed_at hinted 200 (first_roll before 0) roster)
      (first_roll before 0)

hinted-some : collect_hints before.observed_at 200 [] (joined_hint ∷ []) ≡ some hinted
unfolding reconciled collect_hints hint_of jid jid_domain matches_word fold_pattern fold_char
    lower_text lower_char span_digits lookup insert erase contains admit_all admit_item admit_entry
    enroll update_member provenance matching_times is_seen resolve_identity_of jids resolve_jids
    owners_of alias_owner sorted_set text_set sort_texts insert_text member_of close_absent
    prune_data pruned_memberships closed_memberships insert_closed expired erase_all
    retained_participants member_ids reconcile account_matches save_data with_route resolve_route
    routed is_phone rpartition keep
hinted-some = refl

roll-some :
    admit_all marks before.account before.observed_at hinted 200 (first_roll before 0) roster
    ≡ some admitted_roll
unfolding reconciled collect_hints hint_of jid jid_domain matches_word fold_pattern fold_char
    lower_text lower_char span_digits lookup insert erase contains admit_all admit_item admit_entry
    enroll update_member provenance matching_times is_seen resolve_identity_of jids resolve_jids
    owners_of alias_owner sorted_set text_set sort_texts insert_text member_of close_absent
    prune_data pruned_memberships closed_memberships insert_closed expired erase_all
    retained_participants member_ids reconcile account_matches save_data with_route resolve_route
    routed is_phone rpartition keep
roll-some = refl

reconciled_total_example :
    (d : GuestData) × (changes : List MembershipChange) × (reading ≡ some (d, changes))
reconciled_total_example =
    reconciled_total marks 0 before roster (joined_hint ∷ []) 200 hinted admitted_roll marks-inj
      before-IsGuestData before-AreUnused refl hinted-some roll-some
