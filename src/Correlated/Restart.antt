-- ===== src/Correlated/Restart.antt =====
-- A restart: what `async_start` makes of a stored ledger.
use mathlib.Core.Path.{subst}
use home_assistant_whatsapp.Base.{
  Bool, Option, String, [], ap, arith, false, if◌then◌else◌, inl, inr, none, refl, some, sym, true,
  ℕ, ◌∙◌, ◌≡◌, ◌≢◌, ◌⊎◌, ◌<◌, ◌≤◌, ◌+◌, ◌∷◌,
}
use home_assistant_whatsapp.Correlated.Claim.{Request, claim_locked}
use home_assistant_whatsapp.Correlated.Fence.{claim_locked_fence, is_admitted}
use home_assistant_whatsapp.Correlated.Ledger.{is_kept, is_open, is_retained, prune, prune_changes}
use home_assistant_whatsapp.Correlated.Start.{
  Start, has_pending, interrupt, restore, save_start, settle_start, start, start_records,
}
use home_assistant_whatsapp.Correlated.Types.{
  Config, Manager, Record, Status, idempotency_retention, outcome_unknown, pending, unknown,
}
use home_assistant_whatsapp.Base.Int.{ℤ, negsuc, pos}
use home_assistant_whatsapp.Dict.{
  Dict, IsDict, filter-IsDict, filter_values, filter-eq_of_length, lookup, lookup-filter_some,
  lookup-map_values, map_values, map_values-IsDict,
}
use home_assistant_whatsapp.Json.{Value}
use home_assistant_whatsapp.Store.{SaveResult, loaded, save_cancelled, save_failed, saved}

-- Whether a record of that creation time, in seconds, is to be kept at a time.
abbrev pub IsRetained : ℤ → ℕ → Type 0
IsRetained (pos t) now = now < t + idempotency_retention
IsRetained (negsuc t) now = now + t + 1 < idempotency_retention

-- Whether a creation time is past its retention at a time.
abbrev pub IsPast : ℤ → ℕ → Type 0
IsPast (pos t) now = t + idempotency_retention ≤ now
IsPast (negsuc t) now = idempotency_retention ≤ now + t + 1

is_retained-cases :
    (t : ℤ) (now : ℕ)
    → ((is_retained t now ≡ true) × IsRetained t now) ⊎ ((is_retained t now ≡ false) × IsPast t now)
unfolding is_retained
is_retained-cases (pos t) now = ground arith
is_retained-cases (negsuc t) now = ground arith

Status-cases : (s : Status) → (s ≡ pending) ⊎ (s ≡ unknown) ⊎ ((s ≢ pending) × (s ≢ unknown))
Status-cases s = ground arith

restored_cases :
    (now : ℕ) (r : Record) (found : Option Record)
    → found ≡ (if is_kept now r then some (interrupt r) else none)
    → ((r.status ≡ pending)
        × (found ≡ some (record r { status = unknown; error_code = some outcome_unknown })))
      ⊎ ((r.status ≢ pending)
          × ((r.status ≡ unknown) ⊎ IsRetained r.created_at now)
          × (found ≡ some r))
      ⊎ ((r.status ≢ pending) × (r.status ≢ unknown) × IsPast r.created_at now × (found ≡ none))
unfolding is_kept interrupt
restored_cases now r found h = elim (Status-cases r.status) [
  | inl e ↦ inl (e, h ∙ ground arith)
  | inr (inl e) ↦ inr (inl (ground arith, inl e, h ∙ ground arith))
  | inr (inr (p, u)) ↦ elim (is_retained-cases r.created_at now) [
    | inl (k, now_kept) ↦ inr (inl (p, inr now_kept, h ∙ ground arith))
    | inr (k, past) ↦ inr (inr (p, u, past, h ∙ ground arith))
  ]
]

interrupt-open : (r : Record) → is_open r.status ≡ true → is_open (interrupt r).status ≡ true
unfolding interrupt
interrupt-open r h = ground arith

is_kept-open : (now : ℕ) (r : Record) → is_open r.status ≡ true → is_kept now r ≡ true
unfolding is_kept
is_kept-open now r h = ground arith

-- The records of a manager that read a ledger: pruned, and with no send left pending.
start_records_lem :
    (m : Manager) (d : Dict Record) (now : ℕ) (ack : SaveResult)
    → (start_records m d now ack).manager.records
      ≡ map_values interrupt (filter_values (is_kept now) d)
unfolding start_records settle_start save_start prune
start_records_lem m d now ack = ground arith

-- A ledger that is available is the one that was read, or it is the one that was saved.
abbrev pub IsKept : Dict Record → Start → SaveResult → Type 0
IsKept d s ack = (s.manager.records ≡ d) ⊎ ((ack ≡ saved) × (s.written ≡ some s.manager.records))

save_start_available :
    (m : Manager) (ack : SaveResult)
    → m.persistence_available ≡ false
    → (save_start m ack).manager.persistence_available ≡ true
    → (ack ≡ saved) × ((save_start m ack).written ≡ some (save_start m ack).manager.records)
unfolding save_start
save_start_available m saved h e = (refl, refl)
save_start_available m save_failed h e = absurd (cc)
save_start_available m save_cancelled h e = absurd (cc)

-- What `async_start` does not count as changed, it has not changed.
interrupt-unchanged : (d : Dict Record) → has_pending d ≡ false → map_values interrupt d ≡ d
unfolding has_pending map_values interrupt
interrupt-unchanged [] h = refl
interrupt-unchanged ((t, r) ∷ d) h = ground (arith, interrupt-unchanged d)

prune-unchanged :
    (now : ℕ) (m : Manager) → prune_changes now m ≡ false → (prune now m).records ≡ m.records
unfolding prune_changes prune
prune-unchanged now m h = filter-eq_of_length (is_kept now) m.records (ground arith)

settle_start_available :
    (d : Dict Record) (m : Manager) (changed : Bool) (ack : SaveResult)
    → m.persistence_available ≡ false
    → (changed ≡ false → m.records ≡ d)
    → (settle_start m changed ack).manager.persistence_available ≡ true
    → IsKept d (settle_start m changed ack) ack
unfolding settle_start
settle_start_available d m true ack h same e = inr (save_start_available m ack h e)
settle_start_available d m false ack h same e = inl (same refl)

prune_available :
    (now : ℕ) (m : Manager)
    → m.persistence_available ≡ false
    → (prune now m).persistence_available ≡ false
unfolding prune
prune_available now m h = h

start_records_available :
    (m : Manager) (d : Dict Record) (now : ℕ) (ack : SaveResult)
    → m.persistence_available ≡ false
    → (start_records m d now ack).manager.persistence_available ≡ true
    → IsKept d (start_records m d now ack) ack
unfolding start_records
start_records_available m d now ack h e =
    let before = record m { records = d } in
    settle_start_available d _ _ ack (prune_available now before h)
      (λ k.
        let whole = prune-unchanged now before (ground arith) in
        ap (map_values interrupt) whole
        ∙ interrupt-unchanged d (ap has_pending (sym whole) ∙ ground arith))
      e

module _ (c : Config) (m : Manager) (v : Value) (d : Dict Record) (now : ℕ) (ack : SaveResult)
    (fresh : (m.started ≡ false) × (m.stopping ≡ false) × (m.persistence_available ≡ false))
    (read : restore c v ≡ some d) where
  abbrev begun : Start
  begun = start c m (loaded (some v)) now ack

  begun_lem : begun ≡ start_records (record m { is_owner = true; started = true }) d now ack
  unfolding start
  begun_lem = ground arith

  lookup-begun :
      (t : String)
      → lookup t begun.manager.records ≡ elim (lookup t (filter_values (is_kept now) d)) [
        | none ↦ none
        | some r ↦ some (interrupt r)
      ]
  lookup-begun t =
      ap (λ s. lookup t s.manager.records) begun_lem
      ∙ ap (lookup t) (start_records_lem _ d now ack)
      ∙ lookup-map_values interrupt t (filter_values (is_kept now) d)

  begun-IsDict : IsDict d → IsDict begun.manager.records
  begun-IsDict u =
      subst IsDict (sym (ap (λ s. s.manager.records) begun_lem ∙ start_records_lem _ d now ack)) (
        map_values-IsDict interrupt (filter_values (is_kept now) d)
          (filter-IsDict (is_kept now) d u))

  begun_kept :
      (t : String) (r : Record)
      → IsDict d
      → lookup t d ≡ some r
      → lookup t begun.manager.records ≡ (if is_kept now r then some (interrupt r) else none)
  begun_kept t r u e = lookup-begun t ∙ ground (arith, lookup-filter_some (is_kept now) t r d u e)

  -- When a new manager has read a ledger without repeated tokens, a record that was pending is there
  -- as unknown, with the error code `outcome_unknown` and otherwise as it was. Any other record is
  -- there as it was if it is unknown or its retention, from its creation time on, has not run out by
  -- now, and is gone otherwise.
  pub restart_records :
      (t : String) (r : Record)
      → IsDict d
      → lookup t d ≡ some r
      → ((r.status ≡ pending)
          × (lookup t begun.manager.records
              ≡ some (record r { status = unknown; error_code = some outcome_unknown })))
        ⊎ ((r.status ≢ pending)
            × ((r.status ≡ unknown) ⊎ IsRetained r.created_at now)
            × (lookup t begun.manager.records ≡ some r))
        ⊎ ((r.status ≢ pending)
            × (r.status ≢ unknown)
            × IsPast r.created_at now
            × (lookup t begun.manager.records ≡ none))
  restart_records t r u e = restored_cases now r _ (begun_kept t r u e)

  -- A new manager that reads a ledger without repeated tokens never admits a send whose outcome the
  -- ledger leaves open, whatever the request says and however the saves end.
  pub restart_fence :
      (q : Request) (r : Record) (now' created : ℕ) (ack' : SaveResult)
      → IsDict d
      → lookup q.token d ≡ some r
      → is_open r.status ≡ true
      → is_admitted (claim_locked c begun.manager q now' created ack').result ≡ false
  restart_fence q r now' created ack' u e o =
      (claim_locked_fence c begun.manager q now' created ack' (interrupt r) (begun-IsDict u)
        (begun_kept q.token r u e ∙ ground (arith, is_kept-open now r o)) (interrupt-open r o)).0

  -- A new manager that is available once it has read a ledger either holds that very ledger, or its
  -- store has acknowledged the records that it holds.
  pub restart_available :
      begun.manager.persistence_available ≡ true
      → (begun.manager.records ≡ d) ⊎ ((ack ≡ saved) × (begun.written ≡ some begun.manager.records))
  restart_available h = rw begun_lem (
      start_records_available _ d now ack fresh.2
        (ap (λ s. s.manager.persistence_available) (sym begun_lem) ∙ h))
