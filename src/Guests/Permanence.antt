-- ===== src/Guests/Permanence.antt =====
-- What each call of a guest registry keeps.
use mathlib.Core.Path.{subst}
use home_assistant_whatsapp.Base.{
  >>=-eq-some, Bool-cases, List, Option, Option-cases, String, [], ap, arith, false, guard,
  if◌then◌else◌, inl, inr, is_none, is_some, leb, ltb, none, not, or_else, refl, some, some-inj,
  str_eq, str_eq_iff, sym, true, ℕ, ◌&&◌, ◌+◌, ◌||◌, ◌∙◌, ◌≡◌,
}
use home_assistant_whatsapp.Guests.Evolution.{
  Evolves, Kept, has_begun, refuse-Kept, same-Keeps, save_data-Kept,
}
use home_assistant_whatsapp.Guests.Identity.{group_jid, jid}
use home_assistant_whatsapp.Guests.Provision.{
  Done, Ended, adopt_unknown_group, bind_account, is_create_unknown, is_creating, is_creation_open,
  is_settable, is_unconfigured, mark_create_started, mark_create_unknown, new_group, refuse,
  reviewed_ids, same_text, save_data, set_group, set_provisioning_status, with_group,
}
use home_assistant_whatsapp.Guests.Reconcile.{
  Proof, RosterItem, admit_all, close_absent, is_verified, reconcile, reconciled,
}
use home_assistant_whatsapp.Guests.Hints.{Hint, collect_hints, is_before}
use home_assistant_whatsapp.Guests.Roster.{prune_data}
use home_assistant_whatsapp.Guests.Types.{
  GuestData, GuestGroup, GuestRegistry, MembershipChange, Provisioning, create_unknown, creating,
  group_saved, is_ready, suspended,
}
use home_assistant_whatsapp.Store.{SaveResult}

pub bind_account-Kept :
    (g : GuestRegistry) (bot : String) (ack : SaveResult) → Kept g (bind_account g bot ack)
unfolding bind_account
bind_account-Kept g bot ack = elim (Option-cases (jid bot)) [
  | inl e ↦ refuse-Kept g (bind_account g bot ack) (ground arith)
  | inr (a, e) ↦
      let d = g.guest_data in
      elim (Bool-cases (is_none d.account || same_text d.account a)) [
        | inr c ↦
            let same : refuse (record g { confirmed = false }) ≡ bind_account g bot ack =
              ground arith in
            subst (Kept g) same (same-Keeps g (record g { confirmed = false }) refl refl)
        | inl c ↦
            let d' : GuestData = record d { account = some a } in
            let same : save_data g d' ack (λ h. h) tt ≡ bind_account g bot ack = ground arith in
            subst (Kept g) same (
              save_data-Kept g d' (λ h. h) tt
                (record {
                  account = λ b f. ground (arith, str_eq_iff b a);
                  group = λ j f. f;
                  begun = λ f. f;
                  revision = omega arith;
                })
                (λ h. refl) ack)
      ]
]

with_group-Evolves :
    (d : GuestData) (j : GuestGroup) (status : Provisioning)
    → d.group ≡ none
    → Evolves d (with_group d j status)
with_group-Evolves d j status e = record {
  account = λ a f. f;
  group = λ k f. absurd (ground arith);
  begun = λ f. refl;
  revision = omega arith;
}

pub set_group-Kept :
    (uuid : ℕ → String) (n : ℕ) (g : GuestRegistry) (raw : String) (ack : SaveResult)
    → Kept g (set_group uuid n g raw ack)
unfolding set_group
set_group-Kept uuid n g raw ack = elim (Option-cases (group_jid raw)) [
  | inl e ↦ refuse-Kept g (set_group uuid n g raw ack) (ground arith)
  | inr (j, e) ↦
      let d = g.guest_data in
      elim (Bool-cases
        (is_none d.account || is_create_unknown d.provisioning_status g.create_started_here)) [
          | inl c ↦ refuse-Kept g (set_group uuid n g raw ack) (ground arith)
          | inr c ↦ elim (Option-cases d.group) [
            | inr (current, f) ↦ elim (Bool-cases (str_eq current.jid j)) [
              | inl same_group ↦
                  let k : Done String = record {
                    registry = g;
                    written = none;
                    result = Ended.returned current.id;
                  } in
                  let same : k ≡ set_group uuid n g raw ack = ground arith in
                  subst (Kept g) same (same-Keeps g g refl refl)
              | inr other ↦ refuse-Kept g (set_group uuid n g raw ack) (ground arith)
            ]
            | inl f ↦
                let j' = new_group uuid n j in
                let done : GuestRegistry → GuestRegistry =
                  λ h. record h { create_started_here = false } in
                let same : save_data g (with_group d j' group_saved) ack done j'.id
                    ≡ set_group uuid n g raw ack =
                  ground arith in
                subst (Kept g) same (
                  save_data-Kept g (with_group d j' group_saved) done j'.id
                    (with_group-Evolves d j' group_saved f) (λ h. refl) ack)
          ]
        ]
]

pub mark_create_started-Kept :
    (g : GuestRegistry) (ack : SaveResult) → Kept g (mark_create_started g ack)
unfolding mark_create_started
mark_create_started-Kept g ack =
    let d : GuestData = record g.guest_data { provisioning_status = creating } in
    let done : GuestRegistry → GuestRegistry = λ h. record h { create_started_here = true } in
    elim (Bool-cases
      (is_none g.guest_data.group && is_unconfigured g.guest_data.provisioning_status)) [
        | inr e ↦ refuse-Kept g (mark_create_started g ack) (ground arith)
        | inl e ↦
            let same : save_data g d ack done tt ≡ mark_create_started g ack = ground arith in
            subst (Kept g) same (
              save_data-Kept g d done tt
                (record {
                  account = λ a f. f;
                  group = λ j f. f;
                  begun = λ f. absurd (ground arith);
                  revision = omega arith;
                })
                (λ h. refl) ack)
      ]

pub mark_create_unknown-Kept :
    (g : GuestRegistry) (ack : SaveResult) → Kept g (mark_create_unknown g ack)
unfolding mark_create_unknown
mark_create_unknown-Kept g ack =
    let d : GuestData = record g.guest_data { provisioning_status = create_unknown } in
    let done : GuestRegistry → GuestRegistry =
      λ h. record h { create_started_here = false; confirmed = false } in
    elim (Bool-cases (is_creating g.guest_data.provisioning_status)) [
      | inr e ↦ refuse-Kept g (mark_create_unknown g ack) (ground arith)
      | inl e ↦
          let same : save_data g d ack done tt ≡ mark_create_unknown g ack = ground arith in
          subst (Kept g) same (
            save_data-Kept g d done tt
              (record {
                account = λ a f. f;
                group = λ j f. f;
                begun = λ f. ground arith;
                revision = omega arith;
              })
              (λ h. refl) ack)
    ]

pub adopt_unknown_group-Kept :
    (uuid : ℕ → String) (n : ℕ) (g : GuestRegistry) (raw bot : String) (ack : SaveResult)
    → Kept g (adopt_unknown_group uuid n g raw bot ack)
unfolding adopt_unknown_group
adopt_unknown_group-Kept uuid n g raw bot ack = elim (Option-cases (reviewed_ids raw bot)) [
  | inl e ↦ refuse-Kept g (adopt_unknown_group uuid n g raw bot ack) (ground arith)
  | inr ((j, account), e) ↦
      let d = g.guest_data in
      elim (Bool-cases (
        g.storage_healthy
        && is_creation_open d.provisioning_status
        && is_none d.group
        && same_text d.account account)) [
          | inr c ↦ refuse-Kept g (adopt_unknown_group uuid n g raw bot ack) (ground arith)
          | inl c ↦
              let j' = new_group uuid n j in
              let done : GuestRegistry → GuestRegistry =
                λ h. record h { create_started_here = false; confirmed = false } in
              let same : save_data g (with_group d j' suspended) ack done j'.id
                  ≡ adopt_unknown_group uuid n g raw bot ack =
                ground arith in
              subst (Kept g) same (
                save_data-Kept g (with_group d j' suspended) done j'.id
                  (with_group-Evolves d j' suspended (ground arith)) (λ h. refl) ack)
        ]
]

pub set_provisioning_status-Kept :
    (g : GuestRegistry) (status : Provisioning) (ack : SaveResult)
    → Kept g (set_provisioning_status g status ack)
unfolding set_provisioning_status
set_provisioning_status-Kept g status ack =
    let d : GuestData = record g.guest_data { provisioning_status = status } in
    let done : GuestRegistry → GuestRegistry =
      λ h. if is_ready status then h else record h { confirmed = false } in
    elim (Bool-cases (is_settable status && is_some g.guest_data.group)) [
      | inr e ↦ refuse-Kept g (set_provisioning_status g status ack) (ground arith)
      | inl e ↦
          let same : save_data g d ack done tt ≡ set_provisioning_status g status ack =
            ground arith in
          subst (Kept g) same (
            save_data-Kept g d done tt
              (record {
                account = λ a f. f;
                group = λ j f. f;
                begun = λ f. ground arith;
                revision = omega arith;
              })
              (λ h. ground arith) ack)
    ]

reconciled-Evolves :
    (uuid : ℕ → String) (n : ℕ) (d : GuestData) (roster : List RosterItem) (hints : List Hint)
    (when : ℕ) (e : GuestData) (changes : List MembershipChange)
    → reconciled uuid n d roster hints when ≡ some (e, changes)
    → Evolves d e
unfolding reconciled prune_data
reconciled-Evolves uuid n d roster event_hints when e changes h =
    let (w, fresh, h1) = >>=-eq-some (guard (not (is_before when d.observed_at))) _ h in
    let (hints, collected, h2) =
      >>=-eq-some (collect_hints d.observed_at when [] event_hints) _ h1 in
    let (r, all, h3) =
      >>=-eq-some (admit_all uuid d.account d.observed_at hints when _ roster) _ h2 in
    let (closed, c, h4) =
      >>=-eq-some
        (close_absent uuid d.account d.observed_at hints when r.participants r.seen r.memberships) _
        h3 in
    let same = ap (λ x. x.0) (some-inj h4) in
    record {
      account = λ a f. ap (λ x. x.account) (sym same) ∙ f;
      group = λ j f. ap (λ x. x.group) (sym same) ∙ f;
      begun = λ f. ap has_begun (sym same) ∙ f;
      revision = let q = ap (λ x. x.revision) same in omega arith;
    }

pub reconcile-Kept :
    (uuid : ℕ → String) (n : ℕ) (g : GuestRegistry) (roster : List RosterItem)
    (observed_at : Option ℕ) (proof : Proof) (event_hints : List Hint) (now : ℕ) (ack : SaveResult)
    → Kept g (reconcile uuid n g roster observed_at proof event_hints now ack)
unfolding reconcile
reconcile-Kept uuid n g roster observed_at proof event_hints now ack =
    let when = or_else observed_at now in
    let g' : GuestRegistry = record g { confirmed = false } in
    let k = reconcile uuid n g roster observed_at proof event_hints now ack in
    let unread : Done (List MembershipChange) = refuse g' in
    let no : Kept g unread = same-Keeps g g' refl refl in
    elim (Bool-cases (is_verified g proof && ltb 0 when && leb when (now + 300000000))) [
      | inr e ↦ let same : unread ≡ k = ground arith in subst (Kept g) same no
      | inl e ↦ elim (Option-cases (reconciled uuid n g.guest_data roster event_hints when)) [
        | inl f ↦ let same : unread ≡ k = ground arith in subst (Kept g) same no
        | inr ((d, changes), f) ↦
            let same : save_data g' d ack (λ h. record h { confirmed = true }) changes ≡ k =
              ground arith in
            let p = reconciled-Evolves uuid n g.guest_data roster event_hints when d changes f in
            let kept =
              save_data-Kept g' d (λ h. record h { confirmed = true }) changes p (λ h. refl) ack in
            subst (Kept g) same (record { registry = kept.registry; written = kept.written })
      ]
    ]
