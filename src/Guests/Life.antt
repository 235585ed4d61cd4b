-- ===== src/Guests/Life.antt =====
-- A guest registry with its store, through calls, restarts and saves that end in any way.
use home_assistant_whatsapp.Base.{List, Option, String, none, some, ℕ, ◌⊎◌, ◌≡◌}
use home_assistant_whatsapp.Guests.Provision.{
  Restored, absent, interrupted, adopt_unknown_group, bind_account, initialize_empty,
  mark_create_started, mark_create_unknown, set_group, set_provisioning_status, start_registry,
  suspend, unreadable, valid,
}
use home_assistant_whatsapp.Guests.Reconcile.{Proof, RosterItem, reconcile}
use home_assistant_whatsapp.Guests.Hints.{Hint}
use home_assistant_whatsapp.Guests.Types.{GuestData, GuestRegistry, Provisioning}
use home_assistant_whatsapp.Store.{SaveResult, save_cancelled, save_failed, saved}

-- One call of a method: the registry after it, and what it handed to the store.
pub data Call (uuid : ℕ → String) (g : GuestRegistry) (ack : SaveResult)
    : GuestRegistry → Option GuestData → Type 0 where
  binds :
      (bot : String)
      → Call uuid g ack (bind_account g bot ack).registry (bind_account g bot ack).written
  sets :
      (n : ℕ) (j : String)
      → Call uuid g ack (set_group uuid n g j ack).registry (set_group uuid n g j ack).written
  starts : Call uuid g ack (mark_create_started g ack).registry (mark_create_started g ack).written
  gives_up :
      Call uuid g ack (mark_create_unknown g ack).registry (mark_create_unknown g ack).written
  adopts :
      (n : ℕ) (j bot : String)
      → Call uuid g ack
          (adopt_unknown_group uuid n g j bot ack).registry
          (adopt_unknown_group uuid n g j bot ack).written
  suspends : Call uuid g ack (suspend g) none
  sets_status :
      (status : Provisioning)
      → Call uuid g ack
          (set_provisioning_status g status ack).registry
          (set_provisioning_status g status ack).written
  reads :
      (n : ℕ) (roster : List RosterItem) (observed_at : Option ℕ) (proof : Proof)
      (event_hints : List Hint) (now : ℕ)
      → Call uuid g ack
          (reconcile uuid n g roster observed_at proof event_hints now ack).registry
          (reconcile uuid n g roster observed_at proof event_hints now ack).written

-- What the store may hold after it was handed something: a save that did not return may have written.
abbrev pub Holding : Option GuestData → Option GuestData → SaveResult → Option GuestData → Type 0
Holding old none ack new = new ≡ old
Holding old (some d) saved new = new ≡ some d
Holding old (some d) save_failed new = (new ≡ old) ⊎ (new ≡ some d)
Holding old (some d) save_cancelled new = (new ≡ old) ⊎ (new ≡ some d)

-- How a load of the store may end.
abbrev pub Loads : Option GuestData → Restored → Type 0
Loads held unreadable = Unit
Loads held interrupted = Unit
Loads held absent = held ≡ none
Loads held (valid d) = held ≡ some d

pub record Life : Type 0 where
  pub registry : GuestRegistry
  pub held : Option GuestData

pub data Event (uuid : ℕ → String) (s : Life) : Life → Type 0 where
  calls :
      (ack : SaveResult) (g : GuestRegistry) (written held : Option GuestData)
      → Call uuid s.registry ack g written
      → Holding s.held written ack held
      → Event uuid s (record { registry = g; held = held })
  restarts :
      (loaded : Restored)
      → Loads s.held loaded
      → Event uuid s (record { registry = start_registry s.registry loaded; held = s.held })
  initializes :
      (loaded : Restored) (ack : SaveResult) (held : Option GuestData)
      → Loads s.held loaded
      → Holding s.held (initialize_empty s.registry loaded ack).written ack held
      → Event uuid s
          (record { registry = (initialize_empty s.registry loaded ack).registry; held = held })

pub data Lives (uuid : ℕ → String) (s : Life) : Life → Type 0 where
  here : Lives uuid s s
  next : {t u : Life} → Lives uuid s t → Event uuid t u → Lives uuid s u
