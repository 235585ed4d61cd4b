-- ===== src/Guests/Load.antt =====
-- `_validate`: the data of a guest group in a stored snapshot. `none` is an error. Integers that no
-- float can hold are left out.
use home_assistant_whatsapp.Base.{
  Bool, List, Option, String, [], contains, false, guard, if◌then◌else◌, is_some, leb, ltb, none,
  not, some, str_eq, true, ℕ, ◌++◌, ◌>>=◌, ◌>>◌, ◌||◌, ◌∷◌,
}
use home_assistant_whatsapp.Base.Int.{natural?}
use home_assistant_whatsapp.Dict.{Dict, lookup}
use home_assistant_whatsapp.Guests.Identity.{group_jid, is_opaque, jid}
use home_assistant_whatsapp.Guests.Provision.{is_settable, is_unconfigured}
use home_assistant_whatsapp.Guests.Types.{
  GuestData, GuestGroup, Interval, Kind, Membership, Provisioning, Role, active, admin,
  create_unknown, creating, group_saved, guest, host, is_active, left, participant, ready,
  superadmin, suspended, unconfigured,
}
use home_assistant_whatsapp.Json.{
  Value, as_dict, as_list, as_str, bool, dict, float, get, int, is_version, list, null, str,
}
use home_assistant_whatsapp.Polls.Timestamp.{millionths_of}

abbrev is_null : Value → Bool
is_null null = true
is_null _ = false

abbrev pub has_entries : Dict Value → Bool
has_entries [] = false
has_entries (e ∷ d) = true

-- `_timestamp`
unfoldable pub timestamp_of : Value → Option ℕ
timestamp_of v = do t ← millionths_of v; guard (ltb 0 t); some t

-- `isinstance(revision, int) and revision >= 0`, which a bool passes.
unfoldable pub revision_of : Value → Option ℕ
revision_of (int n) = natural? n
revision_of (bool b) = some (if b then 1 else 0)
revision_of _ = none

unfoldable pub observed_of : Value → Option (Option ℕ)
observed_of null = some none
observed_of (bool b) = none
observed_of (int n) = do t ← timestamp_of (int n); some (some t)
observed_of (float x) = do t ← timestamp_of (float x); some (some t)
observed_of (str s) = none
observed_of (list xs) = none
observed_of (dict fs) = none

unfoldable pub provisioning_of : String → Option Provisioning
provisioning_of s =
    if str_eq s "unconfigured"
    then some unconfigured
    else if str_eq s "creating"
    then some creating
    else if str_eq s "create_unknown"
    then some create_unknown
    else if str_eq s "group_saved"
    then some group_saved
    else if str_eq s "ready"
    then some ready
    else if str_eq s "suspended"
    then some suspended
    else none

unfoldable pub kind_of : String → Option Kind
kind_of s = if str_eq s "host" then some host else if str_eq s "guest" then some guest else none

unfoldable pub role_of : String → Option Role
role_of s =
    if str_eq s "participant"
    then some participant
    else if str_eq s "admin"
    then some admin
    else if str_eq s "superadmin"
    then some superadmin
    else none

-- The account, which stays as it is stored.
unfoldable pub account_of : Provisioning → Value → Option (Option String)
account_of status v = elim (as_str v) [
  | some s ↦ do j ← jid s; some (some s)
  | none ↦ do guard (is_null v); guard (is_unconfigured status); some none
]

unfoldable pub group_of : Value → Option GuestGroup
group_of v = do
  d ← as_dict v
  id ← as_str (get "id" d)
  guard (is_opaque "group" id)
  s ← as_str (get "jid" d)
  j ← group_jid s
  conversation ← as_str (get "conversation_id" d)
  guard (is_opaque "group_conversation" conversation)
  some (record { id = id; jid = s; conversation_id = conversation })

-- A status that a saved group may have.
unfoldable pub saved_group_of : Provisioning → Value → Bool → Option (Option GuestGroup)
saved_group_of status v holds_members =
    if is_null v
    then (do guard (not (is_settable status)); guard (not holds_members); some none)
    else (do group ← group_of v; guard (is_settable status); some (some group))

-- The loop over the aliases of a participant; `seen` holds the aliases before.
unfoldable pub stored_aliases : List String → List Value → Option (List String)
stored_aliases seen [] = some []
stored_aliases seen (v ∷ vs) = do
  a ← as_str v
  j ← jid a
  guard (str_eq j a)
  guard (not (contains a seen))
  rest ← stored_aliases (a ∷ seen) vs
  some (a ∷ rest)

abbrev pub has_values : List Value → Bool
has_values [] = false
has_values (v ∷ vs) = true

-- The loop over the participants.
unfoldable pub stored_participants : List String → Dict Value → Option (Dict (List String))
stored_participants seen [] = some []
stored_participants seen ((i, v) ∷ ps) = do
  guard (is_opaque "participant" i)
  d ← as_dict v
  vs ← as_list (get "aliases" d)
  guard (has_values vs)
  aliases ← stored_aliases seen vs
  rest ← stored_participants (aliases ++ seen) ps
  some ((i, aliases) ∷ rest)

unfoldable pub ended_of : ℕ → Value → Option Interval
ended_of started v = do ended ← timestamp_of v; guard (leb started ended); some (left ended)

-- An interval; `held` are the participants with an active membership so far.
unfoldable pub interval_of : List String → String → ℕ → Dict Value → Option Interval
interval_of held i started d = elim (as_str (get "status" d)) [
  | none ↦ none
  | some status ↦
      if str_eq status "active"
      then (if contains i held then none else some active)
      else if str_eq status "left"
      then ended_of started (get "ended_at" d)
      else none
]

-- The participant and the kind of a membership.
unfoldable pub stored_identity : Dict (List String) → Dict Value → Option (String × Kind)
stored_identity ps d = do
  i ← as_str (get "participant_id" d)
  guard (is_some (lookup i ps))
  s ← as_str (get "kind" d)
  kind ← kind_of s
  some (i, kind)

-- The route and the role of a membership.
unfoldable pub stored_route : List String → Dict Value → Option (String × Role)
stored_route routes d = do
  route ← as_str (get "route" d)
  guard (is_opaque "guest_direct" route)
  guard (not (contains route routes))
  s ← as_str (get "role" d)
  role ← role_of s
  some (route, role)

unfoldable pub stored_member :
    Dict (List String) → List String → List String → Value → Option Membership
stored_member ps held routes v = do
  d ← as_dict v
  whose ← stored_identity ps d
  started ← timestamp_of (get "started_at" d)
  status ← interval_of held whose.0 started d
  way ← stored_route routes d
  some (record {
    participant_id = whose.0;
    kind = whose.1;
    role = way.1;
    status = status;
    started_at = started;
    route = way.0;
  })

-- The loop over the memberships.
unfoldable pub stored_members :
    Dict (List String) → List String → List String → Dict Value → Option (Dict Membership)
stored_members ps held routes [] = some []
stored_members ps held routes ((k, v) ∷ ms) = do
  guard (is_opaque "membership" k)
  m ← stored_member ps held routes v
  let held' = if is_active m.status then m.participant_id ∷ held else held
  rest ← stored_members ps held' (m.route ∷ routes) ms
  some ((k, m) ∷ rest)

-- All but the participants and the memberships.
unfoldable pub stored_state : Bool → Dict Value → Option GuestData
stored_state holds_members d = do
  revision ← revision_of (get "revision" d)
  observed_at ← observed_of (get "observed_at" d)
  s ← as_str (get "provisioning_status" d)
  status ← provisioning_of s
  account ← account_of status (get "account" d)
  group ← saved_group_of status (get "group" d) holds_members
  some (record {
    account = account;
    group = group;
    participants = [];
    memberships = [];
    revision = revision;
    observed_at = observed_at;
    provisioning_status = status;
  })

-- `_validate`
unfoldable pub validated : Value → Option GuestData
validated v = do
  d ← as_dict v
  guard (is_version (get "version" d))
  participants ← as_dict (get "participants" d)
  memberships ← as_dict (get "memberships" d)
  state ← stored_state (has_entries participants || has_entries memberships) d
  ps ← stored_participants [] participants
  ms ← stored_members ps [] [] memberships
  some (record state { participants = ps; memberships = ms })
