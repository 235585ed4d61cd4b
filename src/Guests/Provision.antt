-- ===== src/Guests/Provision.antt =====
-- The life of a guest group: `async_start`, `async_initialize_empty`, `_save`, binding the account,
-- the provisioning of the group, and `suspend`.
use home_assistant_whatsapp.Base.{
  Bool, Option, String, false, if◌then◌else◌, is_none, is_some, none, not, some, str_eq, true, ℕ,
  ◌&&◌, ◌+◌, ◌>>=◌, ◌||◌,
}
use home_assistant_whatsapp.Guests.Identity.{fresh_id, group_jid, jid}
use home_assistant_whatsapp.Guests.Types.{
  GuestData, GuestGroup, GuestRegistry, Provisioning, create_unknown, creating, empty_data,
  group_saved, is_ready, ready, suspended, unconfigured,
}
use home_assistant_whatsapp.Store.{SaveResult, save_cancelled, save_failed, saved}

-- How a call ended: it returned, it raised, or it was cancelled in the store.
pub data Ended {ℓ} (A : Type ℓ) : Type ℓ where
  returned : A → Ended A
  raised cancelled : Ended A

-- The new state, what was handed to the store, and the end of the call.
pub record Done {ℓ} (A : Type ℓ) : Type ℓ where
  pub registry : GuestRegistry
  pub written : Option GuestData
  pub result : Ended A

module _ {ℓ} {A : Type ℓ} where
  abbrev pub refuse : GuestRegistry → Done A
  refuse g = record { registry = g; written = none; result = raised }

  -- `_save`, and what the caller does once it has returned. A `CancelledError` is no `Exception`.
  unfoldable pub save_data :
      GuestRegistry → GuestData → SaveResult → (GuestRegistry → GuestRegistry) → A → Done A
  save_data g updated ack after a =
      if g.storage_healthy
      then elim ack [
        | saved ↦ record {
          registry = after (record g { guest_data = updated });
          written = some updated;
          result = returned a;
        }
        | save_failed ↦ record {
          registry = record g { storage_healthy = false; confirmed = false };
          written = some updated;
          result = raised;
        }
        | save_cancelled ↦ record { registry = g; written = some updated; result = cancelled }
      ]
      else refuse g

-- `async_start`, by how the load ended: `unreadable` is a failure or a snapshot that `_validate`
-- refuses, `interrupted` a cancellation.
abbrev pub restarted : GuestRegistry → GuestData → Bool → GuestRegistry
restarted g d healthy = record g {
  guest_data = d;
  storage_healthy = healthy;
  confirmed = false;
  create_started_here = false;
}

pub data Restored : Type 0 where
  absent unreadable interrupted : Restored
  valid : GuestData → Restored

unfoldable pub start_registry : GuestRegistry → Restored → GuestRegistry
start_registry g absent = restarted g empty_data false
start_registry g unreadable = restarted g empty_data false
start_registry g interrupted = restarted g g.guest_data false
start_registry g (valid d) = restarted g d true

-- `async_initialize_empty`
unfoldable pub initialize_empty : GuestRegistry → Restored → SaveResult → Done (Unit {0})
initialize_empty g unreadable ack = refuse g
initialize_empty g interrupted ack = record { registry = g; written = none; result = cancelled }
initialize_empty g (valid d) ack = record {
  registry = record g { guest_data = d; storage_healthy = true };
  written = none;
  result = returned tt;
}
initialize_empty g absent saved = record {
  registry = record g { guest_data = empty_data; storage_healthy = true };
  written = some empty_data;
  result = returned tt;
}
initialize_empty g absent save_failed = record {
  registry = g;
  written = some empty_data;
  result = raised;
}
initialize_empty g absent save_cancelled = record {
  registry = g;
  written = some empty_data;
  result = cancelled;
}

-- Two optional texts are the same.
abbrev pub same_text : Option String → String → Bool
same_text none s = false
same_text (some t) s = str_eq t s

-- `account_matches`
unfoldable pub account_matches : GuestRegistry → String → Bool
account_matches g verified_bot_jid = elim (jid verified_bot_jid) [
  | none ↦ false
  | some account ↦ g.storage_healthy && same_text g.guest_data.account account
]

-- `group_matches`
unfoldable pub group_matches : GuestRegistry → String → String → Bool
group_matches g raw_group_jid verified_bot_jid = elim (group_jid raw_group_jid) [
  | none ↦ false
  | some j ↦
      account_matches g verified_bot_jid
      && elim g.guest_data.group [ none ↦ false | some group ↦ str_eq group.jid j ]
]

-- `async_bind_account`
unfoldable pub bind_account : GuestRegistry → String → SaveResult → Done (Unit {0})
bind_account g verified_bot_jid ack = elim (jid verified_bot_jid) [
  | none ↦ refuse g
  | some account ↦
      let d = record g.guest_data { account = some account } in
      if is_none g.guest_data.account || same_text g.guest_data.account account
      then save_data g d ack (λ h. h) tt
      else refuse (record g { confirmed = false })
]

abbrev pub is_create_unknown : Provisioning → Bool → Bool
is_create_unknown create_unknown started = true
is_create_unknown creating started = not started
is_create_unknown _ started = false

abbrev pub new_group : (ℕ → String) → ℕ → String → GuestGroup
new_group uuid n j = record {
  id = fresh_id uuid "group" n;
  jid = j;
  conversation_id = fresh_id uuid "group_conversation" (n + 1);
}

abbrev pub with_group : GuestData → GuestGroup → Provisioning → GuestData
with_group d group status = record d { group = some group; provisioning_status = status }

-- `async_set_group`
unfoldable pub set_group : (ℕ → String) → ℕ → GuestRegistry → String → SaveResult → Done String
set_group uuid n g raw_group_jid ack = elim (group_jid raw_group_jid) [
  | none ↦ refuse g
  | some j ↦
      let d = g.guest_data in
      let group = new_group uuid n j in
      if is_none d.account || is_create_unknown d.provisioning_status g.create_started_here
      then refuse g
      else elim d.group [
        | some current ↦
            if str_eq current.jid j
            then record { registry = g; written = none; result = returned current.id }
            else refuse g
        | none ↦
            save_data g (with_group d group group_saved) ack
              (λ h. record h { create_started_here = false }) group.id
      ]
]

abbrev pub is_unconfigured : Provisioning → Bool
is_unconfigured unconfigured = true
is_unconfigured _ = false

abbrev pub is_creating : Provisioning → Bool
is_creating creating = true
is_creating _ = false

-- `async_mark_create_started`
unfoldable pub mark_create_started : GuestRegistry → SaveResult → Done (Unit {0})
mark_create_started g ack =
    let d = record g.guest_data { provisioning_status = creating } in
    if is_none g.guest_data.group && is_unconfigured g.guest_data.provisioning_status
    then save_data g d ack (λ h. record h { create_started_here = true }) tt
    else refuse g

-- `async_mark_create_unknown`
unfoldable pub mark_create_unknown : GuestRegistry → SaveResult → Done (Unit {0})
mark_create_unknown g ack =
    let d = record g.guest_data { provisioning_status = create_unknown } in
    if is_creating g.guest_data.provisioning_status
    then save_data g d ack (λ h. record h { create_started_here = false; confirmed = false }) tt
    else refuse g

abbrev pub is_creation_open : Provisioning → Bool
is_creation_open creating = true
is_creation_open create_unknown = true
is_creation_open _ = false

unfoldable pub reviewed_ids : String → String → Option (String × String)
reviewed_ids raw_group_jid verified_bot_jid = do
  j ← group_jid raw_group_jid
  account ← jid verified_bot_jid
  some (j, account)

-- `async_adopt_unknown_group`
unfoldable pub adopt_unknown_group :
    (ℕ → String) → ℕ → GuestRegistry → String → String → SaveResult → Done String
adopt_unknown_group uuid n g raw_group_jid verified_bot_jid ack =
    let d = g.guest_data in
    elim (reviewed_ids raw_group_jid verified_bot_jid) [
      | none ↦ refuse g
      | some (j, account) ↦
          let group = new_group uuid n j in
          if g.storage_healthy
            && is_creation_open d.provisioning_status
            && is_none d.group
            && same_text d.account account
          then save_data g (with_group d group suspended) ack
              (λ h. record h { create_started_here = false; confirmed = false }) group.id
          else refuse g
    ]

-- `suspend`
unfoldable pub suspend : GuestRegistry → GuestRegistry
suspend g = record g { confirmed = false }

abbrev pub is_settable : Provisioning → Bool
is_settable group_saved = true
is_settable ready = true
is_settable suspended = true
is_settable _ = false

-- `async_set_provisioning_status`
unfoldable pub set_provisioning_status : GuestRegistry → Provisioning → SaveResult → Done (Unit {0})
set_provisioning_status g status ack =
    let d = record g.guest_data { provisioning_status = status } in
    if is_settable status && is_some g.guest_data.group
    then save_data g d ack (λ h. if is_ready status then h else record h { confirmed = false }) tt
    else refuse g
