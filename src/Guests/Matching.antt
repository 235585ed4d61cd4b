-- ===== src/Guests/Matching.antt =====
-- `async_reconcile` as a whole: the roster and the memberships that come of it.
use mathlib.Core.Path.{subst}
use home_assistant_whatsapp.Base.{
  >>=-eq-some, Bool, Option-cases, arith, List, String, [], ap, contains, guard, inl, inr, not,
  some, some-inj, sym, true, ℕ, ◌+◌, ◌∙◌, ◌≡◌, ◌⊎◌,
}
use home_assistant_whatsapp.Dict.{Dict, lookup}
use home_assistant_whatsapp.Guests.Admission.{admit_all-IsRoll}
use home_assistant_whatsapp.Guests.Growth.{IsAdmitted, IsRoll}
use home_assistant_whatsapp.Guests.Book.{Extends, IsBook, IsGuestData}
use home_assistant_whatsapp.Guests.Departures.{close-IsBook, close-origin, close-stays}
use home_assistant_whatsapp.Guests.Reconcile.{
  Roll, RosterItem, admit_all, close_absent, has_account, reconciled,
}
use home_assistant_whatsapp.Guests.Linked.{AllAgree, AreDistinct, AreFresh, ItemsAgree}
use home_assistant_whatsapp.Guests.Turns.{admit_all-AllAgree, admit_all-AreDistinct}
use home_assistant_whatsapp.Guests.Hints.{Hint, collect_hints, is_before}
use home_assistant_whatsapp.Guests.Retention.{
  prune-AreDistinct, prune-IsGuestData, pruned-keeps, pruned-origin, retained-member,
}
use home_assistant_whatsapp.Guests.Roster.{jids, prune_data}
use home_assistant_whatsapp.Guests.Rows.{AreUnused, Holds, IsItem, Names}
use home_assistant_whatsapp.Guests.Types.{GuestData, Membership, MembershipChange, is_active}

-- An item of the roster says what an active membership says.
abbrev pub IsListed : GuestData → List RosterItem → Membership → Type 0
IsListed d roster m =
    (x : RosterItem) × IsItem x roster
    × Names d.participants x m.participant_id
    × (x.kind ≡ some m.kind)
    × (x.role ≡ some m.role)

-- An item leads to the account that is bound: each set of aliases that has the account, and all or
-- none of the aliases of each participant and of each item of the roster, has the item's aliases.
abbrev pub IsAccount : GuestData → List RosterItem → RosterItem → Type 0
IsAccount d roster x =
    (account : String) × (js : List String) × (d.account ≡ some account)
    × (jids x.aliases ≡ some js)
    × ((mine : String → Bool)
        → mine account ≡ true
        → AllAgree mine d.participants
        → ItemsAgree mine roster
        → (a : String) → contains a js ≡ true
        → mine a ≡ true)

-- An item has its membership.
abbrev pub IsEnrolled : GuestData → RosterItem → Type 0
IsEnrolled d x = (i : String) × Names d.participants x i × Holds d.memberships x i

-- The steps of a roster that was read.
record Reading (uuid : ℕ → String) (n : ℕ) (d : GuestData) (roster : List RosterItem) (when : ℕ)
    (d' : GuestData) : Type 0 where
  roll : Roll
  left_open : Dict Membership
  well : IsRoll uuid (λ x. IsItem x roster) roll
  admitted : (x : RosterItem) → IsItem x roster → IsAdmitted d.account roll x
  extends : Extends d.participants roll.participants
  book : IsBook roll.participants left_open
  origin :
      (k : String) (m : Membership)
      → lookup k left_open ≡ some m
      → is_active m.status ≡ true
      → (lookup k roll.memberships ≡ some m) × (contains m.participant_id roll.seen ≡ true)
  agree :
      AreFresh uuid n d.participants
      → (mine : String → Bool) → AllAgree mine d.participants
      → ItemsAgree mine roster
      → AllAgree mine roll.participants
  repeatless : AreDistinct d.participants → AreDistinct roll.participants
  stays :
      (k : String) (m : Membership)
      → lookup k roll.memberships ≡ some m
      → contains m.participant_id roll.seen ≡ true
      → lookup k left_open ≡ some m
  last :
      prune_data
        (record d {
          participants = roll.participants;
          memberships = left_open;
          revision = d.revision + 1;
          observed_at = some when;
        })
        when
      ≡ d'

module _ (uuid : ℕ → String) (distinct : (i j : ℕ) → uuid i ≡ uuid j → i ≡ j) (n : ℕ)
    (d : GuestData) (roster : List RosterItem) (event_hints : List Hint) (when : ℕ) (d' : GuestData)
    (changes : List MembershipChange) (v : IsGuestData d) (u : AreUnused uuid n d.memberships)
    (h : reconciled uuid n d roster event_hints when ≡ some (d', changes)) where
  reading : Reading uuid n d roster when d'
  unfolding reconciled contains
  reading =
      let (w, fresh, h1) = >>=-eq-some (guard (not (is_before when d.observed_at))) _ h in
      let (hints, collected, h2) =
        >>=-eq-some (collect_hints d.observed_at when [] event_hints) _ h1 in
      let r0 : Roll = record {
        participants = d.participants;
        memberships = d.memberships;
        seen = [];
        changes = [];
        next_id = n;
      } in
      let (r, admitted, h3) =
        >>=-eq-some (admit_all uuid d.account d.observed_at hints when r0 roster) _ h2 in
      let (closed, e, h4) =
        >>=-eq-some
          (close_absent uuid d.account d.observed_at hints when r.participants r.seen r.memberships)
          _ h3 in
      let start : IsRoll uuid (λ x. IsItem x roster) r0 = record {
        book = v;
        unused = u;
        rows = λ i c. absurd (cc);
      } in
      let (well, all, grows) =
        admit_all-IsRoll uuid distinct d.account d.observed_at hints when (λ x. IsItem x roster) r0
          r roster start (λ x k. k) admitted in
      record {
        roll = r;
        left_open = closed.0;
        well = well;
        admitted = all;
        extends = grows.extends;
        book =
            close-IsBook uuid d.account d.observed_at hints when r.participants r.seen r.memberships
              closed.0 closed.1 well.book e;
        origin = λ k m f a.
            let (m', g, c) =
              close-origin uuid d.account d.observed_at hints when r.participants r.seen k
                r.memberships closed.0 closed.1 m e f in
            let (same, s) = c.still a in
            (g ∙ ap some (sym same), ap (λ x. contains x.participant_id r.seen) same ∙ s);
        agree = λ fresh mine w linked.
            admit_all-AllAgree uuid d.account d.observed_at hints when mine distinct r0 r roster
              v.participants_dict fresh w linked admitted;
        repeatless = λ w.
            admit_all-AreDistinct uuid d.account d.observed_at hints when r0 r roster w admitted;
        stays = λ k m f c.
            close-stays uuid d.account d.observed_at hints when r.participants r.seen k
              r.memberships closed.0 closed.1 m e f c;
        last = ap (λ x. x.0) (some-inj h4);
      }

  pub reconciled-IsGuestData : IsGuestData d'
  reconciled-IsGuestData = subst IsGuestData reading.last (prune-IsGuestData _ when reading.book)

  -- Reading a roster keeps the data of a guest group well formed: no id is there twice, no alias is
  -- listed twice, by one participant or by two, a participant has at most one active membership, and
  -- the participant of each membership is there. The ids that `uuid4` gives are distinct, and as
  -- membership ids not yet in use.
  pub reconciled-AreDistinct :
      AreDistinct d.participants → IsGuestData d' × AreDistinct d'.participants
  reconciled-AreDistinct w = (
    reconciled-IsGuestData,
    subst (λ e. AreDistinct e.participants) reading.last
        (prune-AreDistinct _ when reading.book.participants_dict (reading.repeatless w)),
  )

  -- A participant of an active membership keeps the aliases of an item past `_prune`.
  pruned-Names :
      (x : RosterItem) (k : String) (m : Membership)
      → lookup k reading.left_open ≡ some m
      → is_active m.status ≡ true
      → Names reading.roll.participants x m.participant_id
      → Names d'.participants x m.participant_id
  pruned-Names x k m l a names =
      let kept = pruned-keeps when k reading.left_open m reading.book.memberships_dict l a in
      record {
        canonical = names.canonical;
        read = names.read;
        some_alias = names.some_alias;
        aliases = names.aliases;
        stored =
            ap (λ e. lookup m.participant_id e.participants) (sym reading.last)
            ∙ retained-member _ when k m names.aliases reading.book.participants_dict kept
                names.stored;
        included = names.included;
      }

  reconciled-open :
      (k : String) (m : Membership)
      → lookup k d'.memberships ≡ some m
      → lookup k reading.left_open ≡ some m
  unfolding prune_data
  reconciled-open k m l =
      pruned-origin when k reading.left_open m (ap (λ e. lookup k e.memberships) reading.last ∙ l)

  pub reconciled-IsListed :
      (k : String) (m : Membership)
      → lookup k d'.memberships ≡ some m
      → is_active m.status ≡ true
      → IsListed d' roster m
  reconciled-IsListed k m l a =
      let left_open = reconciled-open k m l in
      let (before, seen) = reading.origin k m left_open a in
      let (x, listed, names, holds) = reading.well.rows m.participant_id seen in
      let key =
        reading.well.book.single k holds.membership_id m holds.membership before holds.stored a
          holds.running (sym holds.mine) in
      let same =
        some-inj
          (sym holds.stored ∙ ap (λ j. lookup j reading.roll.memberships) (sym key) ∙ before) in
      (
        x,
        listed,
        pruned-Names x k m left_open a names,
        holds.kind ∙ ap (λ y. some y.kind) same,
        holds.role ∙ ap (λ y. some y.role) same,
      )

  account-IsAccount :
      (x : RosterItem) (i : String) (ys : List String)
      → AreFresh uuid n d.participants
      → Names reading.roll.participants x i
      → lookup i reading.roll.participants ≡ some ys
      → has_account d.account ys ≡ true
      → IsAccount d roster x
  account-IsAccount x i ys fresh names stored c = elim (Option-cases d.account) [
    | inl e ↦ absurd (ground (arith, ap (λ o. has_account o ys) e))
    | inr (account, e) ↦
        let held : contains account ys ≡ true = ap (λ o. has_account o ys) (sym e) ∙ c in
        let same = some-inj (sym names.stored ∙ stored) in
        (
          account,
          names.canonical,
          e,
          names.read,
          λ mine own w linked a b.
              reading.agree fresh mine w linked i ys stored a account
                (subst (λ zs. contains a zs ≡ true) same (names.included a b)) held
              ∙ own,
        )
  ]

  reconciled-IsEnrolled :
      (x : RosterItem)
      → AreFresh uuid n d.participants
      → IsItem x roster
      → IsEnrolled d' x ⊎ IsAccount d roster x
  unfolding prune_data
  reconciled-IsEnrolled x fresh listed =
      let (i, names, way) = reading.admitted x listed in
      elim way [
        | inr (ys, stored, mine) ↦ inr (account-IsAccount x i ys fresh names stored mine)
        | inl (seen, holds) ↦
            let k = holds.membership_id in
            let m = holds.membership in
            let left_open =
              reading.stays k m holds.stored
                (ap (λ j. contains j reading.roll.seen) holds.mine ∙ seen) in
            let kept =
              pruned-keeps when k reading.left_open m reading.book.memberships_dict left_open
                holds.running in
            let named = subst (Names reading.roll.participants x) (sym holds.mine) names in
            inl (
              i,
              subst (Names d'.participants x) holds.mine
                  (pruned-Names x k m left_open holds.running named),
              record {
                membership_id = k;
                membership = m;
                stored = ap (λ e. lookup k e.memberships) (sym reading.last) ∙ kept;
                mine = holds.mine;
                running = holds.running;
                kind = holds.kind;
                role = holds.role;
              },
            )
      ]

  -- Where a roster is read into well-formed data, the active memberships are what the roster says:
  -- each has the kind and the role of an item whose aliases are all known for its participant, and
  -- each item has such a membership, unless its aliases are linked to the account that is bound, by
  -- the aliases of the participants before and those of the items of the roster alone. The revision
  -- goes up by one. The ids that `uuid4` gives are distinct, and as membership and as participant ids
  -- not yet in use.
  pub reconciled_matches :
      AreFresh uuid n d.participants
      → ((k : String) (m : Membership)
          → lookup k d'.memberships ≡ some m
          → is_active m.status ≡ true
          → IsListed d' roster m)
        × ((x : RosterItem) → IsItem x roster → IsEnrolled d' x ⊎ IsAccount d roster x)
        × (d'.revision ≡ d.revision + 1)
  unfolding prune_data
  reconciled_matches fresh = (
    reconciled-IsListed,
    (λ x listed. reconciled-IsEnrolled x fresh listed),
    ap (λ e. e.revision) (sym reading.last),
  )
