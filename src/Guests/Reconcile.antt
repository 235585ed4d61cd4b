-- ===== src/Guests/Reconcile.antt =====
-- `async_reconcile`: an authoritative roster becomes the registry's memberships.
use home_assistant_whatsapp.Guests.Hints.{
  HintType, join, leave, promote, demote, Hint, is_before, collect_hints, provenance,
}
use home_assistant_whatsapp.Base.{
  Bool, List, Option, String, [], contains, false, guard, if◌then◌else◌, is_some, leb, length, ltb,
  none, not, or_else, some, str_eq, true, ℕ, ◌&&◌, ◌++◌, ◌+◌, ◌==◌, ◌>>=◌, ◌>>◌, ◌||◌, ◌∷◌,
}
use home_assistant_whatsapp.Dict.{Dict, insert, lookup}
use home_assistant_whatsapp.Guests.Identity.{fresh_id}
use home_assistant_whatsapp.Guests.Provision.{Done, account_matches, refuse, save_data}
use home_assistant_whatsapp.Guests.Roster.{member_of, prune_data, resolve_identity_of}
use home_assistant_whatsapp.Guests.Types.{
  ChangeType, GuestData, GuestRegistry, Kind, Membership, MembershipChange, Role, Source, active,
  admin, departed, is_active, joined, kind_name, left, participant, role_changed, role_name,
  superadmin,
}
use home_assistant_whatsapp.Store.{SaveResult}

-- A roster item; a kind or a role that is not valid is absent.
pub record RosterItem : Type 0 where
  pub kind : Option Kind
  pub role : Option Role
  pub aliases : List String
  pub aliases_verified : Bool

-- The variables of the loop over the roster.
pub record Roll : Type 0 where
  pub participants : Dict (List String)
  pub memberships : Dict Membership
  pub seen : List String
  pub changes : List MembershipChange
  pub next_id : ℕ

-- What an admitted roster item says.
pub record Entry : Type 0 where
  pub kind : Kind
  pub role : Role
  pub participant_id : String
  pub aliases : List String

abbrev pub expected_hint : Role → HintType
expected_hint participant = demote
expected_hint admin = promote
expected_hint superadmin = promote

abbrev pub change_of : ChangeType → String → String → ℕ → Source × Option ℕ → MembershipChange
change_of type i k when p = record {
  type = type;
  participant_id = i;
  membership_id = k;
  observed_at = when;
  occurred_at = p.1;
  source = p.0;
}

-- What the account's own aliases are known by.
abbrev pub has_account : Option String → List String → Bool
has_account none aliases = false
has_account (some a) aliases = contains a aliases

module _ (uuid : ℕ → String) (account : Option String) (previous : Option ℕ)
    (hints : Dict (HintType × ℕ)) (when : ℕ) where
  abbrev pub new_membership : Entry → ℕ → Option ℕ → Membership
  new_membership e n occurred = record {
    participant_id = e.participant_id;
    kind = e.kind;
    role = e.role;
    status = active;
    started_at = or_else occurred when;
    route = fresh_id uuid "guest_direct" (n + 1);
  }

  -- A participant without an active membership joins. The first roster is a baseline.
  unfoldable pub enroll : Roll → Entry → Roll
  enroll r e =
      let p = provenance previous hints e.aliases join in
      let k = fresh_id uuid "membership" r.next_id in
      record r {
        memberships = insert k (new_membership e r.next_id p.1) r.memberships;
        changes =
            if is_some previous
            then r.changes ++ change_of joined e.participant_id k when p ∷ []
            else r.changes;
        next_id = r.next_id + 2;
      }

  -- A member whose kind or role differs is updated.
  unfoldable pub update_member : Roll → Entry → String → Membership → Roll
  update_member r e k m =
      let p = provenance previous hints e.aliases (expected_hint e.role) in
      if str_eq (kind_name m.kind) (kind_name e.kind)
        && str_eq (role_name m.role) (role_name e.role)
      then r
      else record r {
        memberships = insert k (record m { kind = e.kind; role = e.role }) r.memberships;
        changes = r.changes ++ change_of role_changed e.participant_id k when p ∷ [];
      }

  -- The turn of an identity that is not the bot's.
  unfoldable pub admit_entry : Roll → Entry → Option Roll
  unfolding enroll update_member
  admit_entry r e =
      let r' = record r { seen = e.participant_id ∷ r.seen } in
      if contains e.participant_id r.seen
      then none
      else elim (member_of e.participant_id r.memberships) [
        | none ↦ some (enroll r' e)
        | some (k, m) ↦ some (update_member r' e k m)
      ]

  -- One turn of the loop over the roster.
  unfoldable pub admit_item : Roll → RosterItem → Option Roll
  admit_item r item = do
    kind ← item.kind
    role ← item.role
    guard (item.aliases_verified || length item.aliases == 1)
    found ← resolve_identity_of uuid r.next_id r.participants item.aliases
    let aliases = or_else (lookup found.participant_id found.participants) []
    let r' : Roll = record r { participants = found.participants; next_id = found.next_id }
    let e : Entry = record {
      kind = kind;
      role = role;
      participant_id = found.participant_id;
      aliases = aliases;
    }
    if has_account account aliases then some r' else admit_entry r' e

  unfoldable pub admit_all : Roll → List RosterItem → Option Roll
  admit_all r [] = some r
  admit_all r (item ∷ items) = elim (admit_item r item) [
    | none ↦ none
    | some r' ↦ admit_all r' items
  ]

  -- The loop that closes the memberships of those who are not in the roster; `none` is a `KeyError`.
  unfoldable pub close_absent :
      Dict (List String)
      → List String
      → Dict Membership
      → Option (Dict Membership × List MembershipChange)
  close_absent ps seen [] = some ([], [])
  close_absent ps seen ((k, m) ∷ ms) = elim (close_absent ps seen ms) [
    | none ↦ none
    | some (rest, changes) ↦
        if not (is_active m.status) || contains m.participant_id seen
        then some ((k, m) ∷ rest, changes)
        else elim (lookup m.participant_id ps) [
          | none ↦ none
          | some aliases ↦
              let p = provenance previous hints aliases leave in
              some (
                (k, record m { status = left (or_else p.1 when) }) ∷ rest,
                change_of departed m.participant_id k when p ∷ changes,
              )
        ]
  ]

-- The variables before the loop.
abbrev pub first_roll : GuestData → ℕ → Roll
first_roll d n = record {
  participants = d.participants;
  memberships = d.memberships;
  seen = [];
  changes = [];
  next_id = n;
}

-- The data after a roster was read at `when`, with the changes; `none` is an error.
unfoldable pub reconciled :
    (ℕ → String)
    → ℕ
    → GuestData
    → List RosterItem
    → List Hint
    → ℕ
    → Option (GuestData × List MembershipChange)
reconciled uuid n d roster event_hints when = do
  guard (not (is_before when d.observed_at))
  hints ← collect_hints d.observed_at when [] event_hints
  r ← admit_all uuid d.account d.observed_at hints when (first_roll d n) roster
  closed ← close_absent uuid d.account d.observed_at hints when r.participants r.seen r.memberships
  some (
    prune_data
        (record d {
          participants = r.participants;
          memberships = closed.0;
          revision = d.revision + 1;
          observed_at = some when;
        })
        when,
    r.changes ++ closed.1,
  )

-- The account, the security settings and the bot's role, as the caller has verified them.
pub record Proof : Type 0 where
  pub verified_bot_jid : String
  pub security_verified : Bool
  pub bot_admin_verified : Bool

abbrev pub is_verified : GuestRegistry → Proof → Bool
is_verified g p =
    account_matches g p.verified_bot_jid
    && is_some g.guest_data.group
    && p.security_verified
    && p.bot_admin_verified

-- `async_reconcile`; `now` is the clock, which stands for an absent `observed_at`.
unfoldable pub reconcile :
    (ℕ → String)
    → ℕ
    → GuestRegistry
    → List RosterItem
    → Option ℕ
    → Proof
    → List Hint
    → ℕ
    → SaveResult
    → Done (List MembershipChange)
reconcile uuid n g roster observed_at proof event_hints now ack =
    let g' = record g { confirmed = false } in
    let when = or_else observed_at now in
    if is_verified g proof && ltb 0 when && leb when (now + 300000000)
    then elim (reconciled uuid n g.guest_data roster event_hints when) [
      | none ↦ refuse g'
      | some (d, changes) ↦ save_data g' d ack (λ h. record h { confirmed = true }) changes
    ]
    else refuse g'
