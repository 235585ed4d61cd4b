-- ===== src/Guests/Gate.antt =====
-- Which routes a registry answers: `async_reconcile` and then `async_with_route`.
use mathlib.Core.Path.{subst}
use home_assistant_whatsapp.Base.{
  Bool, >>=-eq-some, &&_iff, Bool-cases, List, Option, Option-cases, String, ap, arith, contains,
  guard, guard-eq-some, inl, inr, keep, leb, ltb, none, or_else, refl, some, some-inj, str_eq,
  str_eq_iff, sym, true, false, [], ◌∷◌, ℕ, ◌+◌, ◌&&◌, ◌∙◌, ◌≡◌,
}
use home_assistant_whatsapp.Dict.{Dict, IsDict, lookup}
use home_assistant_whatsapp.Guests.Matching.{IsListed, reconciled-IsGuestData, reconciled-IsListed}
use home_assistant_whatsapp.Guests.Book.{IsGuestData}
use home_assistant_whatsapp.Guests.Provision.{Done, returned, save_data}
use home_assistant_whatsapp.Guests.Reconcile.{Proof, RosterItem, is_verified, reconcile, reconciled}
use home_assistant_whatsapp.Guests.Hints.{Hint}
use home_assistant_whatsapp.Guests.Routes.{
  is_phone, is_routing, only_phone, resolve_route, routed, with_route,
}
use home_assistant_whatsapp.Guests.Rows.{AreUnused}
use home_assistant_whatsapp.Guests.Types.{
  GuestData, GuestRegistry, Membership, MembershipChange, is_active,
}
use home_assistant_whatsapp.Store.{SaveResult, save_cancelled, save_failed, saved}

routed-lookup :
    (c : String) (ms : Dict Membership) (m : Membership)
    → IsDict ms
    → routed c ms ≡ some m
    → (k : String) × (lookup k ms ≡ some m) × (is_active m.status ≡ true) × (m.route ≡ c)
unfolding routed lookup
routed-lookup c [] m u h = absurd (cc)
routed-lookup c ((j, n) ∷ ms) m u h = elim (Bool-cases (is_active n.status && str_eq n.route c)) [
  | inl e ↦
      let same : n ≡ m = ground arith in
      let (a, r) = (&&_iff (is_active n.status) (str_eq n.route c)).0 e in
      (
        j,
        ground (arith, str_eq_iff j j),
        ap (λ x. is_active x.status) (sym same) ∙ a,
        ap (λ x. x.route) (sym same) ∙ (str_eq_iff n.route c).0 r,
      )
  | inr e ↦
      let (k, l, a, r) = routed-lookup c ms m u.1 (ground arith) in
      (k, ground (arith, str_eq_iff j k), a, r)
]

contains-keep :
    (q : String → Bool) (p : String) (xs : List String)
    → contains p (keep q xs) ≡ true
    → (contains p xs ≡ true) × (q p ≡ true)
unfolding keep contains
contains-keep q p [] h = absurd (ground arith)
contains-keep q p (x ∷ xs) h = elim (Bool-cases (str_eq x p)) [
  | inl same ↦ elim (Bool-cases (q x)) [
    | inl holds ↦ (ground arith, ap q (sym ((str_eq_iff x p).0 same)) ∙ holds)
    | inr fails ↦ let (a, b) = contains-keep q p xs (ground arith) in (ground arith, b)
  ]
  | inr other ↦ let (a, b) = contains-keep q p xs (ground arith) in (ground arith, b)
]

only_phone-contains :
    (p : String) (xs : List String) → only_phone xs ≡ some p → contains p xs ≡ true
unfolding contains
only_phone-contains p [] h = absurd (cc)
only_phone-contains p (x ∷ []) h = ground (arith, str_eq_iff x p, some-inj h)
only_phone-contains p (x ∷ y ∷ xs) h = absurd (cc)

-- A route leads to the only telephone number of an active member.
pub record IsRoute (d : GuestData) (c destination : String) (k : String) (m : Membership)
    : Type 0 where
  pub stored : lookup k d.memberships ≡ some m
  pub running : is_active m.status ≡ true
  pub mine : m.route ≡ c
  pub aliases : List String
  pub known : lookup m.participant_id d.participants ≡ some aliases
  pub alias : contains destination aliases ≡ true
  pub phone : is_phone destination ≡ true

pub resolve_route-IsRoute :
    (g : GuestRegistry) (c destination : String)
    → IsDict g.guest_data.memberships
    → resolve_route g c ≡ some destination
    → (is_routing g ≡ true)
      × ((k : String) × (m : Membership) × IsRoute g.guest_data c destination k m)
unfolding resolve_route
resolve_route-IsRoute g c destination u h =
    let (w, e, h1) = >>=-eq-some (guard (is_routing g)) _ h in
    let (m, r, h2) = >>=-eq-some (routed c g.guest_data.memberships) _ h1 in
    let (xs, l, h3) = >>=-eq-some (lookup m.participant_id g.guest_data.participants) _ h2 in
    let (k, stored, running, mine) = routed-lookup c g.guest_data.memberships m u r in
    let (alias, phone) =
      contains-keep is_phone destination xs
        (only_phone-contains destination (keep is_phone xs) h3) in
    (
      guard-eq-some (is_routing g) w e,
      (
        k,
        m,
        record {
          stored = stored;
          running = running;
          mine = mine;
          aliases = xs;
          known = l;
          alias = alias;
          phone = phone;
        },
      ),
    )

-- A registry that is not confirmed answers no route.
pub unconfirmed_route :
    (g : GuestRegistry) (c : String) → g.confirmed ≡ false → resolve_route g c ≡ none
unfolding resolve_route
unconfirmed_route g c h = ground arith

save_confirmed :
    (g : GuestRegistry) (d : GuestData) (changes : List MembershipChange) (ack : SaveResult)
    → g.confirmed ≡ false
    → (save_data g d ack (λ k. record k { confirmed = true }) changes).registry.confirmed ≡ true
    → (ack ≡ saved)
      × ((save_data g d ack (λ k. record k { confirmed = true }) changes).registry.guest_data ≡ d)
      × ((save_data g d ack (λ k. record k { confirmed = true }) changes).result ≡ returned changes)
unfolding save_data
save_confirmed g d changes saved u h = elim (Bool-cases g.storage_healthy) [
  | inl e ↦ rw e (refl, refl, refl)
  | inr e ↦ absurd (ground arith)
]
save_confirmed g d changes save_failed u h = absurd (ground arith)
save_confirmed g d changes save_cancelled u h = absurd (ground arith)

resolve_route-confirmed :
    (g : GuestRegistry) (c destination : String)
    → resolve_route g c ≡ some destination
    → g.confirmed ≡ true
resolve_route-confirmed g c destination h = elim (Bool-cases g.confirmed) [
  | inl e ↦ e
  | inr e ↦ absurd (ground (arith, unconfirmed_route g c e))
]

module _ (uuid : ℕ → String) (distinct : (i j : ℕ) → uuid i ≡ uuid j → i ≡ j) (n : ℕ)
    (g : GuestRegistry) (roster : List RosterItem) (observed_at : Option ℕ) (proof : Proof)
    (event_hints : List Hint) (now : ℕ) (ack : SaveResult) where
  abbrev read_roster : Done (List MembershipChange)
  read_roster = reconcile uuid n g roster observed_at proof event_hints now ack

  -- The only way to a confirmed registry.
  pub reconcile_confirmed :
      read_roster.registry.confirmed ≡ true
      → (d : GuestData) × (changes : List MembershipChange) × (is_verified g proof ≡ true)
        × (reconciled uuid n g.guest_data roster event_hints (or_else observed_at now)
            ≡ some (d, changes))
        × (ack ≡ saved)
        × (read_roster.registry.guest_data ≡ d)
        × (read_roster.result ≡ returned changes)
  unfolding reconcile save_data
  reconcile_confirmed h =
      let when = or_else observed_at now in
      elim (Bool-cases (is_verified g proof && ltb 0 when && leb when (now + 300000000))) [
        | inr e ↦ absurd (ground arith)
        | inl e ↦ elim (Option-cases (reconciled uuid n g.guest_data roster event_hints when)) [
          | inl f ↦ absurd (ground arith)
          | inr ((d, changes), f) ↦
              let (w, late) =
                (&&_iff (is_verified g proof && ltb 0 when) (leb when (now + 300000000))).0 e in
              let (v, early) = (&&_iff (is_verified g proof) (ltb 0 when)).0 w in
              let g' : GuestRegistry = record g { confirmed = false } in
              let same : read_roster
                  ≡ save_data g' d ack (λ k. record k { confirmed = true }) changes =
                ground arith in
              let (a, b, c) =
                save_confirmed g' d changes ack refl
                  (ap (λ r. r.registry.confirmed) (sym same) ∙ h) in
              (
                d,
                changes,
                v,
                f,
                a,
                ap (λ r. r.registry.guest_data) same ∙ b,
                ap (λ r. r.result) same ∙ c,
              )
        ]
      ]

  -- Where `async_with_route` sends on a route right after `async_reconcile` on well-formed data, the
  -- fresh check has said yes, the roster was read with the account, the group, its security and the
  -- bot's role verified, and the destination is a telephone alias of the participant of an active
  -- membership that has the route and that an item of that roster lists. The ids that `uuid4` gives
  -- are distinct, and as membership ids not yet in use.
  pub reconcile-with_route :
      (c : String) (verify_current : String → Bool) (destination : String)
      → IsGuestData g.guest_data
      → AreUnused uuid n g.guest_data.memberships
      → with_route read_roster.registry c verify_current ≡ some destination
      → (verify_current destination ≡ true)
        × (is_verified g proof ≡ true)
        × ((k : String) × (m : Membership) × IsRoute read_roster.registry.guest_data c destination k
              m
            × IsListed read_roster.registry.guest_data roster m)
  unfolding with_route
  reconcile-with_route c verify_current destination v u h =
      let (p, e, h1) = >>=-eq-some (resolve_route read_roster.registry c) _ h in
      let (w, f, h2) = >>=-eq-some (guard (verify_current p)) _ h1 in
      let (d, changes, verified, r, a, same, done) =
        reconcile_confirmed (resolve_route-confirmed read_roster.registry c p e) in
      let when = or_else observed_at now in
      let v' : IsGuestData d =
        reconciled-IsGuestData uuid distinct n g.guest_data roster event_hints when d changes v u
          r in
      let listed =
        reconciled-IsListed uuid distinct n g.guest_data roster event_hints when d changes v u r in
      let out = subst (λ q. resolve_route read_roster.registry c ≡ some q) (some-inj h2) e in
      let (routing, (k, m, route)) =
        resolve_route-IsRoute read_roster.registry c destination
          (subst (λ x. IsDict x.memberships) (sym same) v'.memberships_dict) out in
      let l =
        listed k m (ap (λ x. lookup k x.memberships) (sym same) ∙ route.stored) route.running in
      (
        ap verify_current (sym (some-inj h2)) ∙ guard-eq-some (verify_current p) w f,
        verified,
        (k, m, route, subst (λ x. IsListed x roster m) (sym same) l),
      )
