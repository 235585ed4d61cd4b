-- ===== src/Guests/Routes.antt =====
-- What a confirmed registry answers: `resolve_member`, `resolve_route`, `resolve_group_conversation`,
-- `async_with_route` and `snapshot`.
use home_assistant_whatsapp.Base.{
  Bool, List, Option, String, [], false, guard, if◌then◌else◌, is_some, keep, leb, none, some,
  str_eq, ℕ, ◌&&◌, ◌+◌, ◌>>=◌, ◌>>◌, ◌∷◌,
}
use home_assistant_whatsapp.Dict.{Dict, lookup}
use home_assistant_whatsapp.Guests.Identity.{jid}
use home_assistant_whatsapp.Guests.Roster.{alias_owner, member_of}
use home_assistant_whatsapp.Guests.Types.{
  GuestRegistry, Interval, Kind, Membership, Provisioning, Role, is_active, is_ready,
}
use home_assistant_whatsapp.Text.{rpartition}

abbrev pub is_routing : GuestRegistry → Bool
is_routing g = g.storage_healthy && g.confirmed && is_ready g.guest_data.provisioning_status

-- `_public_member`
pub record PublicMember : Type 0 where
  pub participant_id : String
  pub membership_id : String
  pub kind : Kind
  pub status : Interval
  pub whatsapp_role : Role
  pub direct_conversation_id : Option String

unfoldable pub public_member : String → Membership → PublicMember
public_member k m = record {
  participant_id = m.participant_id;
  membership_id = k;
  kind = m.kind;
  status = m.status;
  whatsapp_role = m.role;
  direct_conversation_id = if is_active m.status then some m.route else none;
}

-- `resolve_member`
unfoldable pub resolve_member : GuestRegistry → String → Option ℕ → ℕ → Option PublicMember
resolve_member g alias occurred_at now = do
  guard (is_routing g)
  occurred ← occurred_at
  j ← jid alias
  owner ← alias_owner j g.guest_data.participants
  found ← member_of owner g.guest_data.memberships
  guard (leb found.1.started_at occurred && leb occurred (now + 300000000))
  some (public_member found.0 found.1)

-- `alias.endswith("@c.us")`
unfoldable pub is_phone : String → Bool
is_phone alias = elim (rpartition b'@' alias) [
  | none ↦ false
  | some (l, domain) ↦ str_eq domain "c.us"
]

abbrev pub only_phone : List String → Option String
only_phone [] = none
only_phone (p ∷ []) = some p
only_phone (p ∷ q ∷ ps) = none

-- The first active membership with a route.
unfoldable pub routed : String → Dict Membership → Option Membership
routed c [] = none
routed c ((k, m) ∷ ms) = if is_active m.status && str_eq m.route c then some m else routed c ms

-- `resolve_route`. A membership without its participant would be a `KeyError`, which is `none` too.
unfoldable pub resolve_route : GuestRegistry → String → Option String
resolve_route g c = do
  guard (is_routing g)
  m ← routed c g.guest_data.memberships
  aliases ← lookup m.participant_id g.guest_data.participants
  only_phone (keep is_phone aliases)

-- `resolve_group_conversation`
unfoldable pub resolve_group_conversation : GuestRegistry → String → Option String
resolve_group_conversation g c = do
  guard (is_routing g)
  group ← g.guest_data.group
  guard (str_eq group.conversation_id c)
  some group.jid

-- `async_with_route`: the destination that is sent to, where the fresh check says yes.
unfoldable pub with_route : GuestRegistry → String → (String → Bool) → Option String
with_route g c verify_current = do
  destination ← resolve_route g c
  guard (verify_current destination)
  some destination

pub record GuestSnapshot : Type 0 where
  pub group_id : Option String
  pub conversation_id : Option String
  pub ready : Bool
  pub confirmed : Bool
  pub provisioning_status : Provisioning
  pub revision : ℕ
  pub observed_at : Option ℕ
  pub memberships : List PublicMember
  pub membership_found : Option Bool

unfoldable pub public_members : Dict Membership → List PublicMember
unfolding public_member
public_members [] = []
public_members ((k, m) ∷ ms) = public_member k m ∷ public_members ms

-- The memberships that are asked for.
unfoldable pub chosen_members : Option String → Dict Membership → Dict Membership
chosen_members none ms = ms
chosen_members (some k) ms = elim (lookup k ms) [
  | none ↦ if str_eq k "" then ms else []
  | some m ↦ (k, m) ∷ []
]

-- `snapshot`
unfoldable pub guest_snapshot : GuestRegistry → Option String → GuestSnapshot
guest_snapshot g membership_id =
    let d = g.guest_data in
    record {
      group_id = elim d.group [ none ↦ none | some group ↦ some group.id ];
      conversation_id = elim d.group [ none ↦ none | some group ↦ some group.conversation_id ];
      ready = is_routing g && is_some d.group;
      confirmed = g.storage_healthy && g.confirmed;
      provisioning_status = d.provisioning_status;
      revision = d.revision;
      observed_at = d.observed_at;
      memberships = public_members (chosen_members membership_id d.memberships);
      membership_found = elim membership_id [
        | none ↦ none
        | some k ↦ some (is_some (lookup k d.memberships))
      ];
    }
