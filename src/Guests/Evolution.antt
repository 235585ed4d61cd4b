-- ===== src/Guests/Evolution.antt =====
-- How the data of a guest group evolves.
use mathlib.Core.Path.{subst}
use home_assistant_whatsapp.Base.{
  Bool, Bool-cases, Option, String, arith, false, inl, inr, is_none, none, not, refl, some,
  some-inj, sym, true, ◌&&◌, ◌∙◌, ◌≡◌, ◌≤◌,
}
use home_assistant_whatsapp.Guests.Provision.{Done, Ended, is_unconfigured, refuse, save_data}
use home_assistant_whatsapp.Guests.Types.{GuestData, GuestGroup, GuestRegistry}
use home_assistant_whatsapp.Store.{SaveResult, save_cancelled, save_failed, saved}

-- A group exists, or its creation was started.
abbrev pub has_begun : GuestData → Bool
has_begun d = not (is_none d.group && is_unconfigured d.provisioning_status)

-- The account and the group stay, the creation is not taken back, and rosters are counted up.
pub record Evolves (d e : GuestData) : Type 0 where
  pub account : (a : String) → d.account ≡ some a → e.account ≡ some a
  pub group : (j : GuestGroup) → d.group ≡ some j → e.group ≡ some j
  pub begun : has_begun d ≡ true → has_begun e ≡ true
  pub revision : d.revision ≤ e.revision

pub Evolves-refl : (d : GuestData) → Evolves d d
Evolves-refl d = record {
  account = λ a h. h;
  group = λ j h. h;
  begun = λ h. h;
  revision = omega arith;
}

pub Evolves-trans : {d e f : GuestData} → Evolves d e → Evolves e f → Evolves d f
Evolves-trans p q = record {
  account = λ a h. q.account a (p.account a h);
  group = λ j h. q.group j (p.group j h);
  begun = λ h. q.begun (p.begun h);
  revision = let l = p.revision in let m = q.revision in omega arith;
}

-- What a call may do: a healthy registry was healthy, and its data has evolved, written or not.
pub record Keeps (g h : GuestRegistry) (out : Option GuestData) : Type 0 where
  pub registry :
      h.storage_healthy ≡ true → (g.storage_healthy ≡ true) × Evolves g.guest_data h.guest_data
  pub written : (d : GuestData) → out ≡ some d → (g.storage_healthy ≡ true) × Evolves g.guest_data d

pub same-Keeps :
    (g h : GuestRegistry)
    → h.guest_data ≡ g.guest_data
    → h.storage_healthy ≡ g.storage_healthy
    → Keeps g h none
same-Keeps g h e s = record {
  registry = λ a. (sym s ∙ a, subst (Evolves g.guest_data) (sym e) (Evolves-refl g.guest_data));
  written = λ d k. absurd (cc);
}

abbrev pub Kept {ℓ} : {A : Type ℓ} → GuestRegistry → Done A → Type 0
Kept g k = Keeps g k.registry k.written

pub refuse-Kept : {A : Type 0} (g : GuestRegistry) (k : Done A) → refuse g ≡ k → Kept g k
refuse-Kept g k e = subst (Kept g) e (same-Keeps g g refl refl)

module _ {A : Type 0} (g : GuestRegistry) (d : GuestData) (after : GuestRegistry → GuestRegistry)
    (a : A) (p : Evolves g.guest_data d)
    (still : (h : GuestRegistry) → (after h).guest_data ≡ h.guest_data) where
  saved-Kept : (ack : SaveResult) → g.storage_healthy ≡ true → Kept g (save_data g d ack after a)
  unfolding save_data
  saved-Kept saved e =
      let k : Done A = record {
        registry = after (record g { guest_data = d });
        written = some d;
        result = Ended.returned a;
      } in
      let same : k ≡ save_data g d saved after a = ground arith in
      subst (Kept g) same (record {
        registry =
            λ h. (e, subst (Evolves g.guest_data) (sym (still (record g { guest_data = d }))) p);
        written = λ f q. (e, subst (Evolves g.guest_data) (some-inj q) p);
      })
  saved-Kept save_failed e =
      let k : Done A = record {
        registry = record g { storage_healthy = false; confirmed = false };
        written = some d;
        result = Ended.raised;
      } in
      let same : k ≡ save_data g d save_failed after a = ground arith in
      subst (Kept g) same (record {
        registry = λ h. absurd (ground arith);
        written = λ f q. (e, subst (Evolves g.guest_data) (some-inj q) p);
      })
  saved-Kept save_cancelled e =
      let k : Done A = record { registry = g; written = some d; result = Ended.cancelled } in
      let same : k ≡ save_data g d save_cancelled after a = ground arith in
      subst (Kept g) same (record {
        registry = λ h. (e, Evolves-refl g.guest_data);
        written = λ f q. (e, subst (Evolves g.guest_data) (some-inj q) p);
      })

  pub save_data-Kept : (ack : SaveResult) → Kept g (save_data g d ack after a)
  unfolding save_data
  save_data-Kept ack = elim (Bool-cases g.storage_healthy) [
    | inl e ↦ saved-Kept ack e
    | inr e ↦ refuse-Kept g (save_data g d ack after a) (ground arith)
  ]
