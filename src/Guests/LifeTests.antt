-- ===== src/Guests/LifeTests.antt =====
-- Examples of the life of a guest registry.
use mathlib.Core.Path.{subst}
use home_assistant_whatsapp.Base.{List, [], contains, inr, keep, refl, some, sym, true, ◌∷◌, ◌≡◌}
use home_assistant_whatsapp.Dict.{erase, insert, lookup}
use home_assistant_whatsapp.Guests.Evolution.{Evolves}
use home_assistant_whatsapp.Guests.Identity.{
  fold_pattern, jid, jid_domain, lower_text, matches_word,
}
use home_assistant_whatsapp.Guests.Life.{Holding, Life, Lives, calls, here, next, reads, restarts}
use home_assistant_whatsapp.Guests.Lifetime.{created_once, identity_permanent}
use home_assistant_whatsapp.Guests.Provision.{
  Done, Ended, account_matches, mark_create_started, refuse, save_data, start_registry, valid,
}
use home_assistant_whatsapp.Guests.Reconcile.{
  admit_all, admit_entry, admit_item, close_absent, enroll, reconcile, reconciled, update_member,
}
use home_assistant_whatsapp.Guests.Hints.{collect_hints, hint_of, matching_times, provenance}
use home_assistant_whatsapp.Guests.Roster.{
  alias_owner, closed_memberships, erase_all, expired, insert_closed, insert_text, jids, member_ids,
  member_of, owners_of, prune_data, pruned_memberships, resolve_identity_of, resolve_jids,
  retained_participants, sort_texts, sorted_set, text_set,
}
use home_assistant_whatsapp.Guests.Routes.{is_phone, resolve_route, routed, with_route}
use home_assistant_whatsapp.Guests.Tests.{attached, verified}
use home_assistant_whatsapp.Guests.Sample.{before, joined_hint, marks, outcome, roster}
use home_assistant_whatsapp.Guests.Types.{
  GuestData, GuestRegistry, MembershipChange, creating, empty_data,
}
use home_assistant_whatsapp.Polls.Load.{is_seen}
use home_assistant_whatsapp.Store.{save_failed, saved}
use home_assistant_whatsapp.Text.{fold_char, lower_char, rpartition, span_digits}

-- A life: a roster is read while the save fails after it has written, and the process restarts.
abbrev first : Life
first = record { registry = attached; held = some before }

abbrev failed : Done (List MembershipChange)
failed = reconcile marks 0 attached roster (some 200) verified (joined_hint ∷ []) 210 save_failed

abbrev last : Life
last = record { registry = start_registry failed.registry (valid outcome.0); held = some outcome.0 }

failed-written : failed.written ≡ some outcome.0
unfolding reconciled collect_hints hint_of jid jid_domain matches_word fold_pattern fold_char
    lower_text lower_char span_digits lookup insert erase contains admit_all admit_item admit_entry
    enroll update_member provenance matching_times is_seen resolve_identity_of jids resolve_jids
    owners_of alias_owner sorted_set text_set sort_texts insert_text member_of close_absent
    prune_data pruned_memberships closed_memberships insert_closed expired erase_all
    retained_participants member_ids reconcile account_matches save_data with_route resolve_route
    routed is_phone rpartition keep
failed-written = refl

life : Lives marks first last
life =
    next
      (next here (
        calls save_failed failed.registry failed.written (some outcome.0)
          (reads 0 roster (some 200) verified (joined_hint ∷ []) 210)
          (subst (λ x. Holding (some before) x save_failed (some outcome.0)) (sym failed-written)
            (inr refl))))
      (restarts (valid outcome.0) refl)

last-healthy : last.registry.storage_healthy ≡ true
unfolding start_registry
last-healthy = refl

identity_permanent_example : Evolves before last.registry.guest_data
identity_permanent_example =
    identity_permanent marks first last before refl (λ h. refl) life last-healthy

-- A group is to be created, and the process restarts.
abbrev bare : GuestRegistry
bare = record attached { guest_data = record empty_data { account = some "1@c.us" } }

abbrev begun : Done (Unit {0})
begun = mark_create_started bare saved

abbrev creating_data : GuestData
creating_data = record empty_data { account = some "1@c.us"; provisioning_status = creating }

abbrev resumed : Life
resumed = record {
  registry = start_registry begun.registry (valid creating_data);
  held = some creating_data;
}

begun-returned : begun.result ≡ Ended.returned tt
unfolding mark_create_started save_data
begun-returned = refl

begun-written : begun.written ≡ some creating_data
unfolding mark_create_started save_data
begun-written = refl

created_once_example : mark_create_started resumed.registry saved ≡ refuse resumed.registry
created_once_example =
    created_once marks (record { registry = bare; held = some bare.guest_data }) resumed
      (some creating_data) saved saved begun-returned
      (subst (λ x. Holding (some bare.guest_data) x saved (some creating_data)) (sym begun-written)
        refl)
      (next here (restarts (valid creating_data) refl))
