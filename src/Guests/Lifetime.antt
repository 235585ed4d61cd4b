-- ===== src/Guests/Lifetime.antt =====
-- The identity of a guest group through the life of its registry.
use mathlib.Core.Path.{subst}
use home_assistant_whatsapp.Base.{
  Bool-cases, Option, String, arith, inl, inr, none, refl, some, some-inj, sym, true, ℕ, ◌∙◌, ◌≡◌,
}
use home_assistant_whatsapp.Guests.Evolution.{
  has_begun, Evolves, Evolves-refl, Evolves-trans, Keeps, same-Keeps,
}
use home_assistant_whatsapp.Guests.Life.{
  Call, Event, Holding, Life, Lives, Loads, adopts, binds, calls, gives_up, here, initializes, next,
  reads, restarts, sets, sets_status, starts, suspends,
}
use home_assistant_whatsapp.Guests.Permanence.{
  adopt_unknown_group-Kept, bind_account-Kept, mark_create_started-Kept, mark_create_unknown-Kept,
  reconcile-Kept, set_group-Kept, set_provisioning_status-Kept,
}
use home_assistant_whatsapp.Guests.Provision.{
  interrupted, refuse, save_data, Restored, absent, initialize_empty, mark_create_started, returned,
  start_registry, suspend, unreadable, valid,
}
use home_assistant_whatsapp.Guests.Types.{GuestData, GuestRegistry}
use home_assistant_whatsapp.Store.{SaveResult, save_cancelled, save_failed, saved}

Call-Keeps :
    {uuid : ℕ → String} {g : GuestRegistry} {ack : SaveResult} {h : GuestRegistry}
    {written : Option GuestData}
    → Call uuid g ack h written
    → Keeps g h written
unfolding suspend
Call-Keeps {g} {ack} (binds bot) = bind_account-Kept g bot ack
Call-Keeps {uuid} {g} {ack} (sets n j) = set_group-Kept uuid n g j ack
Call-Keeps {g} {ack} starts = mark_create_started-Kept g ack
Call-Keeps {g} {ack} gives_up = mark_create_unknown-Kept g ack
Call-Keeps {uuid} {g} {ack} (adopts n j bot) = adopt_unknown_group-Kept uuid n g j bot ack
Call-Keeps {g} suspends = same-Keeps g (suspend g) refl refl
Call-Keeps {g} {ack} (sets_status status) = set_provisioning_status-Kept g status ack
Call-Keeps {uuid} {g} {ack} (reads n roster observed_at proof event_hints now) =
    reconcile-Kept uuid n g roster observed_at proof event_hints now ack

-- The store, and a registry that may write to it, have what has become of some data.
pub record Since (d : GuestData) (s : Life) : Type 0 where
  pub live : s.registry.storage_healthy ≡ true → Evolves d s.registry.guest_data
  pub held : (e : GuestData) × (s.held ≡ some e) × Evolves d e

Holding-Evolves :
    (d : GuestData) (old written new : Option GuestData) (ack : SaveResult)
    → Holding old written ack new
    → ((e : GuestData) × (old ≡ some e) × Evolves d e)
    → ((e : GuestData) → written ≡ some e → Evolves d e)
    → (e : GuestData) × (new ≡ some e) × Evolves d e
Holding-Evolves d old none new ack h (e, f, p) w = (e, h ∙ f, p)
Holding-Evolves d old (some x) new saved h (e, f, p) w = (x, h, w x refl)
Holding-Evolves d old (some x) new save_failed h (e, f, p) w = elim h [
  | inl same ↦ (e, same ∙ f, p)
  | inr wrote ↦ (x, wrote, w x refl)
]
Holding-Evolves d old (some x) new save_cancelled h (e, f, p) w = elim h [
  | inl same ↦ (e, same ∙ f, p)
  | inr wrote ↦ (x, wrote, w x refl)
]

restart-Since :
    (d : GuestData) (s : Life) (loaded : Restored)
    → Loads s.held loaded
    → Since d s
    → Since d (record { registry = start_registry s.registry loaded; held = s.held })
unfolding start_registry
restart-Since d s absent l v = let (e, f, p) = v.held in absurd (ground arith)
restart-Since d s unreadable l v = record { live = λ h. absurd (ground arith); held = v.held }
restart-Since d s interrupted l v = record { live = λ h. absurd (ground arith); held = v.held }
restart-Since d s (valid x) l v =
    let (e, f, p) = v.held in
    record { live = λ h. subst (Evolves d) (some-inj (sym f ∙ l)) p; held = v.held }

initialize-Since :
    (d : GuestData) (s : Life) (loaded : Restored) (ack : SaveResult) (held : Option GuestData)
    → Loads s.held loaded
    → Holding s.held (initialize_empty s.registry loaded ack).written ack held
    → Since d s
    → Since d (record { registry = (initialize_empty s.registry loaded ack).registry; held = held })
unfolding initialize_empty
initialize-Since d s absent ack held l w v = let (e, f, p) = v.held in absurd (ground arith)
initialize-Since d s unreadable ack held l w v =
    let (e, f, p) = v.held in record { live = v.live; held = (e, w ∙ f, p) }
initialize-Since d s interrupted ack held l w v =
    let (e, f, p) = v.held in record { live = v.live; held = (e, w ∙ f, p) }
initialize-Since d s (valid x) ack held l w v =
    let (e, f, p) = v.held in
    record { live = λ h. subst (Evolves d) (some-inj (sym f ∙ l)) p; held = (e, w ∙ f, p) }

Event-Since :
    {uuid : ℕ → String} (d : GuestData) {s t : Life} → Event uuid s t → Since d s → Since d t
Event-Since d {s} (calls ack g written held c w) v =
    let k = Call-Keeps c in
    record {
      live = λ h. let (a, p) = k.registry h in Evolves-trans (v.live a) p;
      held =
          Holding-Evolves d s.held written held ack w v.held
            (λ e f. let (a, p) = k.written e f in Evolves-trans (v.live a) p);
    }
Event-Since d {s} (restarts loaded l) v = restart-Since d s loaded l v
Event-Since d {s} (initializes loaded ack held l w) v = initialize-Since d s loaded ack held l w v

pub Lives-Since :
    {uuid : ℕ → String} (d : GuestData) {s t : Life} → Lives uuid s t → Since d s → Since d t
Lives-Since d here v = v
Lives-Since d (next r e) v = Event-Since d e (Lives-Since d r v)

-- From data that the store holds, and that a healthy registry has, whatever calls and restarts follow
-- and however their saves end, a registry that is healthy again has the same account and the same
-- group if there was one, its creation is not taken back, and its revision is no lower. A load of the
-- store gives what it holds, or fails.
pub identity_permanent :
    (uuid : ℕ → String) (s t : Life) (d : GuestData)
    → s.held ≡ some d
    → (s.registry.storage_healthy ≡ true → s.registry.guest_data ≡ d)
    → Lives uuid s t
    → t.registry.storage_healthy ≡ true
    → Evolves d t.registry.guest_data
identity_permanent uuid s t d h same r healthy =
    let start : Since d s = record {
      live = λ a. subst (Evolves d) (sym (same a)) (Evolves-refl d);
      held = (d, h, Evolves-refl d);
    } in
    (Lives-Since d r start).live healthy

start-returned :
    (g : GuestRegistry) (ack : SaveResult)
    → (mark_create_started g ack).result ≡ returned tt
    → (ack ≡ saved)
      × ((mark_create_started g ack).written ≡ some (mark_create_started g ack).registry.guest_data)
      × (has_begun (mark_create_started g ack).registry.guest_data ≡ true)
unfolding mark_create_started save_data
start-returned g saved h = ground arith
start-returned g save_failed h = absurd (ground arith)
start-returned g save_cancelled h = absurd (ground arith)

start-refused :
    (g : GuestRegistry) (ack : SaveResult)
    → (g.storage_healthy ≡ true → has_begun g.guest_data ≡ true)
    → mark_create_started g ack ≡ refuse g
unfolding mark_create_started save_data
start-refused g ack h = elim (Bool-cases g.storage_healthy) [
  | inl e ↦ let b = h e in ground arith
  | inr e ↦ ground arith
]

-- Once `async_mark_create_started` has returned, every later call of it is refused and writes nothing,
-- whatever calls and restarts come between and however their saves end. A load of the store gives what
-- it holds, or fails.
pub created_once :
    (uuid : ℕ → String) (s t : Life) (held : Option GuestData) (ack ack' : SaveResult)
    → (mark_create_started s.registry ack).result ≡ returned tt
    → Holding s.held (mark_create_started s.registry ack).written ack held
    → Lives uuid
        (record { registry = (mark_create_started s.registry ack).registry; held = held })
        t
    → mark_create_started t.registry ack' ≡ refuse t.registry
created_once uuid s t held ack ack' h w r =
    let k = mark_create_started s.registry ack in
    let (a, written, begun) = start-returned s.registry ack h in
    let d = k.registry.guest_data in
    let kept : Holding s.held (some d) saved held =
      subst (λ x. Holding s.held x saved held) written
        (subst (λ x. Holding s.held k.written x held) a w) in
    let start : Life = record { registry = k.registry; held = held } in
    start-refused t.registry ack'
      (λ healthy. (identity_permanent uuid start t d kept (λ g. refl) r healthy).begun begun)
