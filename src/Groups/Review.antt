-- ===== src/Groups/Review.antt =====
-- `async_review`, `async_verify` and `async_send_text`. What WAHA answers is an input: whether the
-- server has the capabilities, the session, and the roster.
use home_assistant_whatsapp.Base.{
  Bool, List, Option, String, [], false, guard, if◌then◌else◌, is_some, none, not, some, str_eq,
  ◌>>=◌, ◌>>◌, ◌||◌, ◌∷◌,
}
use home_assistant_whatsapp.Dict.{Dict, insert, lookup}
use home_assistant_whatsapp.Groups.Identity.{normalize_group_id, participant_alias}
use home_assistant_whatsapp.Groups.Routes.{
  Destination, GroupSubentry, is_guest_group, resolve_conversation, same_destination,
}
use home_assistant_whatsapp.Guests.Routes.{is_phone}
use home_assistant_whatsapp.Json.{Value, null, str}

pub data ReviewError : Type 0 where
  invalid_group_id managed_group_reserved unsupported_waha_capabilities unverified_bot_account
        unverified_group_membership ambiguous_group_identity invalid_conversation
        bot_account_changed :
      ReviewError

pub data Review {ℓ} (A : Type ℓ) : Type ℓ where
  accepted : A → Review A
  refused : ReviewError → Review A

pub record GroupMember : Type 0 where
  pub id : Value
  pub pn : Value
  pub role : String

pub record VerifiedGroup : Type 0 where
  pub group_jid : String
  pub bot_account : String
  pub aliases : Dict String
  pub bot_identity : String

-- A telephone number that is given must be one.
unfoldable pub number_of : Value → Option (Option String)
number_of v =
    let bad = do p ← participant_alias v; guard (is_phone p); some (some p)
    in elim v [ null ↦ some none | _ ↦ bad ]

-- The canonical id and telephone number of a member.
unfoldable pub member_names : GroupMember → Option (String × Option String)
member_names m = do i ← participant_alias m.id; p ← number_of m.pn; some (i, p)

-- One alias of the set `{member_id, pn} - {None}`.
unfoldable pub put_alias : String → String → Dict String → Option (Dict String)
put_alias a identity aliases =
    if is_some (lookup a aliases) then none else some (insert a identity aliases)

unfoldable pub put_names : String → Option String → Dict String → Option (Dict String)
put_names i none aliases = put_alias i i aliases
put_names i (some p) aliases = do
  guard (not (is_phone i) || str_eq i p)
  more ← put_alias i p aliases
  if str_eq i p then some more else put_alias p p more

-- One turn of the loop over the roster.
unfoldable pub review_member : Dict String → GroupMember → Review (Dict String)
review_member aliases m = if str_eq m.role "left" then accepted aliases else elim (member_names m) [
  | none ↦ refused unverified_group_membership
  | some (i, p) ↦ elim (put_names i p aliases) [
    | none ↦ refused ambiguous_group_identity
    | some more ↦ accepted more
  ]
]

unfoldable pub review_roster : Dict String → List GroupMember → Review (Dict String)
review_roster aliases [] = accepted aliases
review_roster aliases (m ∷ ms) = elim (review_member aliases m) [
  | refused e ↦ refused e
  | accepted more ↦ review_roster more ms
]

-- The answers of WAHA.
pub record Waha : Type 0 where
  pub capable : Bool
  pub working : Bool
  pub account_id : Value
  pub roster : List GroupMember

-- `async_review`
unfoldable pub review : Option String → Waha → Value → Review VerifiedGroup
review guest_group w group_input = elim (normalize_group_id group_input) [
  | none ↦ refused invalid_group_id
  | some group ↦
      if is_guest_group guest_group group
      then refused managed_group_reserved
      else if not w.capable
      then refused unsupported_waha_capabilities
      else elim (participant_alias w.account_id) [
        | none ↦ refused unverified_bot_account
        | some account ↦
            if not w.working
            then refused unverified_bot_account
            else elim (review_roster [] w.roster) [
              | refused e ↦ refused e
              | accepted aliases ↦ elim (lookup account aliases) [
                | none ↦ refused unverified_group_membership
                | some bot ↦ accepted (record {
                  group_jid = group;
                  bot_account = account;
                  aliases = aliases;
                  bot_identity = bot;
                })
              ]
            ]
      ]
]

abbrev pub is_still : Option Destination → Destination → Bool
is_still none d = false
is_still (some e) d = same_destination e d

module _ (opaque_id : String → String → String → String) (guest_group : Option String) where
  -- `async_verify`; `guest_later` and `later` are the guest group and the subentries after the roster
  -- was read.
  unfoldable pub verify :
      Dict GroupSubentry
      → Option String
      → Dict GroupSubentry
      → Waha
      → Destination
      → Review VerifiedGroup
  verify es guest_later later w d =
      let c = d.conversation_id in
      if not (is_still (resolve_conversation opaque_id guest_group es c) d)
      then refused invalid_conversation
      else elim (review guest_group w (str d.group_jid)) [
        | refused e ↦ refused e
        | accepted p ↦
            if not (str_eq p.bot_account d.bot_account)
            then refused bot_account_changed
            else if not (is_still (resolve_conversation opaque_id guest_later later c) d)
            then refused invalid_conversation
            else accepted p
      ]

  -- `async_send_text` up to the send: the group that it is sent to.
  unfoldable pub send_group :
      Dict GroupSubentry → Option String → Dict GroupSubentry → Waha → String → Review String
  send_group es guest_later later w c = elim (resolve_conversation opaque_id guest_group es c) [
    | none ↦ refused invalid_conversation
    | some d ↦ elim (verify es guest_later later w d) [
      | refused e ↦ refused e
      | accepted p ↦ accepted d.group_jid
    ]
  ]
