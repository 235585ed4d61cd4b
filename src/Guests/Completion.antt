-- ===== src/Guests/Completion.antt =====
-- When `async_reconcile` has a result.
use home_assistant_whatsapp.Base.{
  List, String, [], all, contains, false, refl, some, ℕ, ◌++◌, ◌+◌, ◌≡◌,
}
use home_assistant_whatsapp.Dict.{Dict}
use home_assistant_whatsapp.Guests.Admission.{admit_all-IsRoll}
use home_assistant_whatsapp.Guests.Growth.{IsRoll}
use home_assistant_whatsapp.Guests.Book.{IsGuestData}
use home_assistant_whatsapp.Guests.Departures.{close_total}
use home_assistant_whatsapp.Guests.Reconcile.{Roll, RosterItem, admit_all, first_roll, reconciled}
use home_assistant_whatsapp.Guests.Hints.{Hint, HintType, collect_hints, is_before}
use home_assistant_whatsapp.Guests.Roster.{prune_data}
use home_assistant_whatsapp.Guests.Rows.{AreUnused, IsItem}
use home_assistant_whatsapp.Guests.Types.{GuestData, MembershipChange}

-- Well-formed data is reconciled with a roster that is not out of order, where the hints are valid and
-- every item is admitted: closing the memberships of the absent raises no error. The ids that `uuid4`
-- gives are distinct, and as membership ids not yet in use.
pub reconciled_total :
    (uuid : ℕ → String) (n : ℕ) (d : GuestData) (roster : List RosterItem) (event_hints : List Hint)
    (when : ℕ) (hints : Dict (HintType × ℕ)) (r : Roll)
    → ((i j : ℕ) → uuid i ≡ uuid j → i ≡ j)
    → IsGuestData d
    → AreUnused uuid n d.memberships
    → is_before when d.observed_at ≡ false
    → collect_hints d.observed_at when [] event_hints ≡ some hints
    → admit_all uuid d.account d.observed_at hints when (first_roll d n) roster ≡ some r
    → (d' : GuestData) × (changes : List MembershipChange) × (reconciled uuid n d roster event_hints
          when
        ≡ some (d', changes))
unfolding reconciled contains
reconciled_total uuid n d roster event_hints when hints r distinct v u fresh collected admits =
    let start : IsRoll uuid (λ x. IsItem x roster) (first_roll d n) = record {
      book = v;
      unused = u;
      rows = λ i c. absurd (cc);
    } in
    let (well, all, grows) =
      admit_all-IsRoll uuid distinct d.account d.observed_at hints when (λ x. IsItem x roster)
        (first_roll d n) r roster start (λ x k. k) admits in
    let (ns, changes, closed) =
      close_total uuid d.account d.observed_at hints when r.participants r.seen r.memberships
        well.book.memberships_dict well.book.known in
    let d' : GuestData = record d {
      participants = r.participants;
      memberships = ns;
      revision = d.revision + 1;
      observed_at = some when;
    } in
    (prune_data d' when, r.changes ++ changes, rw (fresh, collected, admits, closed) refl)
