-- ===== src/Guests/Sample.antt =====
-- A guest group and a roster for the examples.
use text.Mathlib.TextLemmas.{length-append}
use home_assistant_whatsapp.Base.{
  Bool, Option-cases, is_distinct, ◌<◌, true, Bool-cases, List, Option, String, [], ap, arith,
  concat, contains, count, false, inl, inr, or_else, refl, some, str_eq, str_eq_iff, suc, sym, true,
  ℕ, ◌∙◌, ◌∷◌, ◌≡◌, ◌≢◌, ◌⊎◌,
}
use home_assistant_whatsapp.Dict.{lookup}
use home_assistant_whatsapp.Guests.Book.{IsGuestData}
use home_assistant_whatsapp.Guests.Identity.{fresh_id, jid}
use home_assistant_whatsapp.Guests.Roster.{jids}
use home_assistant_whatsapp.Guests.Reconcile.{RosterItem, reconciled}
use home_assistant_whatsapp.Guests.Hints.{Hint, join}
use home_assistant_whatsapp.Guests.Linked.{Agrees, AllAgree, ItemsAgree, AreDistinct, AreFresh}
use home_assistant_whatsapp.Guests.Rows.{AreUnused}
use mathlib.Core.Path.{subst}
use home_assistant_whatsapp.Guests.Types.{
  GuestData, GuestGroup, Kind, Membership, MembershipChange, Role, active, admin, guest, host,
  participant, ready,
}

-- An id for each number.
abbrev pub marks : ℕ → String
marks ℕ.zero = "f"
marks (ℕ.suc n) = concat "0" (marks n)

count-marks : (n : ℕ) → count (marks n) ≡ suc n
count-marks ℕ.zero = refl
count-marks (ℕ.suc n) = let rest = count-marks n in length-append "0" (marks n) ∙ omega arith

pub marks-inj : (i j : ℕ) → marks i ≡ marks j → i ≡ j
marks-inj i j h =
    let same : suc i ≡ suc j = sym (count-marks i) ∙ ap count h ∙ count-marks j in omega arith

abbrev group : GuestGroup
group = record { id = "group_1"; jid = "120363@g.us"; conversation_id = "group_conversation_1" }

abbrev absentee : Membership
absentee = record {
  participant_id = "p1";
  kind = guest;
  role = participant;
  status = active;
  started_at = 50;
  route = "r1";
}

abbrev member : Membership
member = record {
  participant_id = "p2";
  kind = guest;
  role = participant;
  status = active;
  started_at = 60;
  route = "r2";
}

abbrev pub before : GuestData
before = record {
  account = some "1@c.us";
  group = some group;
  participants = ("p1", "2@c.us" ∷ []) ∷ ("p2", "3@c.us" ∷ []) ∷ [];
  memberships = ("m1", absentee) ∷ ("m2", member) ∷ [];
  revision = 4;
  observed_at = some 100;
  provisioning_status = ready;
}

abbrev pub item : String → Kind → Role → RosterItem
item a k r = record { kind = some k; role = some r; aliases = a ∷ []; aliases_verified = false }

abbrev pub roster : List RosterItem
roster =
    item "1@c.us" host admin
    ∷ item "3@s.whatsapp.net" guest admin
    ∷ item "4@lid" guest participant
    ∷ []

abbrev pub joined_hint : Hint
joined_hint = record { type = some join; alias = "4@lid"; occurred_at = 150 }

abbrev pub reading : Option (GuestData × List MembershipChange)
reading = reconciled marks 0 before roster (joined_hint ∷ []) 200

abbrev pub outcome : GuestData × List MembershipChange
outcome = or_else reading (before, [])

-- The entries of a dict with two keys.
two-cases {ℓ} :
    {V : Type ℓ} (j k i : String) (v w x : V)
    → lookup i ((j, v) ∷ (k, w) ∷ []) ≡ some x
    → ((j ≡ i) × (v ≡ x)) ⊎ ((k ≡ i) × (w ≡ x))
unfolding lookup
two-cases j k i v w x h = elim (Bool-cases (str_eq j i)) [
  | inl same ↦ inl ((str_eq_iff j i).0 same, ground arith)
  | inr other ↦ elim (Bool-cases (str_eq k i)) [
    | inl same ↦ inr ((str_eq_iff k i).0 same, ground arith)
    | inr differ ↦ absurd (ground arith)
  ]
]

pub only : (s a : String) → contains a (s ∷ []) ≡ true → s ≡ a
unfolding contains
only s a h = ground (arith, str_eq_iff s a)

one-Agrees : (mine : String → Bool) (s : String) → Agrees mine (s ∷ [])
one-Agrees mine s a b ca cb = ap mine (sym (only s a ca) ∙ only s b cb)

aliases_differ : ◌≢◌ {A = String} "2@c.us" "3@c.us"
aliases_differ e = ground (arith, ap (str_eq "2@c.us") e)

ids_differ : ◌≢◌ {A = String} "p1" "p2"
ids_differ e = ground (arith, ap (str_eq "p1") e)

-- A short text is not an id.
short-fresh_id :
    (p s : String) (j : ℕ) → count s ≡ 2 → 1 < count p → str_eq s (fresh_id marks p j) ≡ false
short-fresh_id p s j h long = elim (Bool-cases (str_eq s (fresh_id marks p j))) [
  | inr e ↦ e
  | inl e ↦
      let whole = length-append p (concat "_" (marks j)) in
      let more = length-append "_" (marks j) in
      let same : count s ≡ count (fresh_id marks p j) =
        ap count ((str_eq_iff s (fresh_id marks p j)).0 e) in
      absurd (omega (arith, count-marks j))
]

pub before-IsGuestData : IsGuestData before
unfolding lookup contains
before-IsGuestData = record {
  participants_dict = (refl, (refl, tt));
  memberships_dict = (refl, (refl, tt));
  owned = λ a i j xs ys e f c d. elim (two-cases "p1" "p2" i _ _ xs e) [
    | inl (p, q) ↦ elim (two-cases "p1" "p2" j _ _ ys f) [
      | inl (p', q') ↦ sym p ∙ p'
      | inr (p', q') ↦ absurd (
          aliases_differ (
            only "2@c.us" a (ap (contains a) q ∙ c)
            ∙ sym (only "3@c.us" a (ap (contains a) q' ∙ d))))
    ]
    | inr (p, q) ↦ elim (two-cases "p1" "p2" j _ _ ys f) [
      | inl (p', q') ↦ absurd (
          aliases_differ (
            only "2@c.us" a (ap (contains a) q' ∙ d)
            ∙ sym (only "3@c.us" a (ap (contains a) q ∙ c))))
      | inr (p', q') ↦ sym p ∙ p'
    ]
  ];
  single = λ k l m n e f a b s. elim (two-cases "m1" "m2" k absentee member m e) [
    | inl (p, q) ↦ elim (two-cases "m1" "m2" l absentee member n f) [
      | inl (p', q') ↦ sym p ∙ p'
      | inr (p', q') ↦
          absurd
            (ids_differ (ap (λ x. x.participant_id) q ∙ s ∙ sym (ap (λ x. x.participant_id) q')))
    ]
    | inr (p, q) ↦ elim (two-cases "m1" "m2" l absentee member n f) [
      | inl (p', q') ↦
          absurd (
            ids_differ (ap (λ x. x.participant_id) q' ∙ sym s ∙ sym (ap (λ x. x.participant_id) q)))
      | inr (p', q') ↦ sym p ∙ p'
    ]
  ];
  known = λ k m e. elim (two-cases "m1" "m2" k absentee member m e) [
    | inl (p, q) ↦ ("2@c.us" ∷ [], ap (λ x. lookup x.participant_id before.participants) (sym q))
    | inr (p, q) ↦ ("3@c.us" ∷ [], ap (λ x. lookup x.participant_id before.participants) (sym q))
  ];
}

pub before-AreUnused : AreUnused marks 0 before.memberships
unfolding lookup
before-AreUnused j h = ground (
  arith,
  short-fresh_id "membership" "m1" j refl (omega arith),
  short-fresh_id "membership" "m2" j refl (omega arith),
)

pub before-AreFresh : AreFresh marks 0 before.participants
unfolding lookup
before-AreFresh j h = ground (
  arith,
  short-fresh_id "participant" "p1" j refl (omega arith),
  short-fresh_id "participant" "p2" j refl (omega arith),
)

pub before-AllAgree : (mine : String → Bool) → AllAgree mine before.participants
unfolding lookup
before-AllAgree mine i xs e = elim (two-cases "p1" "p2" i _ _ xs e) [
  | inl (p, q) ↦ subst (Agrees mine) q (one-Agrees mine "2@c.us")
  | inr (p, q) ↦ subst (Agrees mine) q (one-Agrees mine "3@c.us")
]

read_one-Agrees :
    (mine : String → Bool) (a : String) (js : List String)
    → jids (a ∷ []) ≡ some js
    → Agrees mine js
unfolding jids
read_one-Agrees mine a js h = elim (Option-cases (jid a)) [
  | inl e ↦ absurd (ground arith)
  | inr (j, e) ↦
      let same : j ∷ [] ≡ js = ground arith in subst (Agrees mine) same (one-Agrees mine j)
]

pub roster-ItemsAgree : (mine : String → Bool) → ItemsAgree mine roster
roster-ItemsAgree mine x js (inl e) h =
    read_one-Agrees mine "1@c.us" js (ap (λ y. jids y.aliases) (sym e) ∙ h)
roster-ItemsAgree mine x js (inr (inl e)) h =
    read_one-Agrees mine "3@s.whatsapp.net" js (ap (λ y. jids y.aliases) (sym e) ∙ h)
roster-ItemsAgree mine x js (inr (inr (inl e))) h =
    read_one-Agrees mine "4@lid" js (ap (λ y. jids y.aliases) (sym e) ∙ h)
roster-ItemsAgree mine x js (inr (inr (inr k))) h = absurd k

pub before-AreDistinct : AreDistinct before.participants
unfolding is_distinct contains
before-AreDistinct i xs e = elim (two-cases "p1" "p2" i _ _ xs e) [
  | inl (p, q) ↦ subst (λ ys. is_distinct ys ≡ true) q refl
  | inr (p, q) ↦ subst (λ ys. is_distinct ys ≡ true) q refl
]
