-- ===== src/Guests/Types.antt =====
-- The state of a `GuestRegistry`. Times are whole microseconds.
use home_assistant_whatsapp.Base.{Bool, List, Option, String, [], false, none, true, ℕ}
use home_assistant_whatsapp.Dict.{Dict}

pub data Provisioning : Type 0 where
  unconfigured creating create_unknown group_saved ready suspended : Provisioning

pub data Kind : Type 0 where
  host guest : Kind

pub data Role : Type 0 where
  participant admin superadmin : Role

-- An active membership, or one that was left at some time.
pub data Interval : Type 0 where
  active : Interval
  left : ℕ → Interval

pub record GuestGroup : Type 0 where
  pub id : String
  pub jid : String
  pub conversation_id : String

pub record Membership : Type 0 where
  pub participant_id : String
  pub kind : Kind
  pub role : Role
  pub status : Interval
  pub started_at : ℕ
  pub route : String

-- `participants` holds the aliases of each participant.
pub record GuestData : Type 0 where
  pub account : Option String
  pub group : Option GuestGroup
  pub participants : Dict (List String)
  pub memberships : Dict Membership
  pub revision : ℕ
  pub observed_at : Option ℕ
  pub provisioning_status : Provisioning

pub record GuestRegistry : Type 0 where
  pub guest_data : GuestData
  pub storage_healthy : Bool
  pub confirmed : Bool
  pub create_started_here : Bool

pub data ChangeType : Type 0 where
  joined role_changed departed : ChangeType

pub data Source : Type 0 where
  webhook reconciliation : Source

pub record MembershipChange : Type 0 where
  pub type : ChangeType
  pub participant_id : String
  pub membership_id : String
  pub observed_at : ℕ
  pub occurred_at : Option ℕ
  pub source : Source

-- `_empty`
abbrev pub empty_data : GuestData
empty_data = record {
  account = none;
  group = none;
  participants = [];
  memberships = [];
  revision = 0;
  observed_at = none;
  provisioning_status = unconfigured;
}

abbrev pub new_guest_registry : GuestRegistry
new_guest_registry = record {
  guest_data = empty_data;
  storage_healthy = false;
  confirmed = false;
  create_started_here = false;
}

abbrev pub provisioning_name : Provisioning → String
provisioning_name unconfigured = "unconfigured"
provisioning_name creating = "creating"
provisioning_name create_unknown = "create_unknown"
provisioning_name group_saved = "group_saved"
provisioning_name ready = "ready"
provisioning_name suspended = "suspended"

abbrev pub kind_name : Kind → String
kind_name host = "host"
kind_name guest = "guest"

abbrev pub role_name : Role → String
role_name participant = "participant"
role_name admin = "admin"
role_name superadmin = "superadmin"

abbrev pub is_active : Interval → Bool
is_active active = true
is_active (left t) = false

abbrev pub is_ready : Provisioning → Bool
is_ready ready = true
is_ready _ = false
