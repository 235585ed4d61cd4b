-- ===== src/Guests/Validated.antt =====
-- The memberships that `_validate` accepts, and the data as a whole.
use mathlib.Core.Path.{subst}
use home_assistant_whatsapp.Base.{
  ◌⊎◌, >>=-eq-some, Bool-cases, List, Option-cases, String, [], ap, arith, contains, false, guard,
  guard-eq-some, if◌then◌else◌, inl, inr, is_some, leb, none, some, some-inj, str_eq, str_eq_iff,
  sym, true, ℕ, ◌||◌, ◌∙◌, ◌∷◌, ◌≡◌, ◌≢◌,
}
use home_assistant_whatsapp.Dict.{Dict, IsDict, lookup}
use home_assistant_whatsapp.Guests.Book.{AreKnown, IsBook, IsGuestData}
use home_assistant_whatsapp.Guests.Identity.{is_opaque, jid}
use home_assistant_whatsapp.Guests.Load.{
  ended_of, has_entries, interval_of, kind_of, stored_identity, stored_member, stored_members,
  stored_participants, stored_route, stored_state, timestamp_of, validated,
}
use home_assistant_whatsapp.Guests.Linked.{AreDistinct}
use home_assistant_whatsapp.Guests.Loaded.{
  participants-AreDistinct, participants-AreOwned, participants-IsDict, participants-new,
}
use home_assistant_whatsapp.Guests.Members.{OneActive}
use home_assistant_whatsapp.Guests.Types.{GuestData, Interval, Kind, Membership, is_active}
use home_assistant_whatsapp.Json.{Value, as_dict, as_str, get, is_version}

interval-new :
    (held : List String) (i : String) (started : ℕ) (d : Dict Value) (t : Interval)
    → interval_of held i started d ≡ some t
    → is_active t ≡ true
    → contains i held ≡ false
unfolding interval_of ended_of
interval-new held i started d t h a = elim (Option-cases (as_str (get "status" d))) [
  | inl e ↦ absurd (ground arith)
  | inr (s, e) ↦ elim (Bool-cases (str_eq s "active")) [
    | inl c ↦ elim (Bool-cases (contains i held)) [ inl f ↦ absurd (ground arith) | inr f ↦ f ]
    | inr c ↦ elim (Bool-cases (str_eq s "left")) [
      | inr f ↦ absurd (ground arith)
      | inl f ↦
          let h' : ended_of started (get "ended_at" d) ≡ some t = ground arith in
          let (ended, e1, h1) = >>=-eq-some (timestamp_of (get "ended_at" d)) _ h' in
          let (w, e2, h2) = >>=-eq-some (guard (leb started ended)) _ h1 in
          absurd (ground (arith, ap is_active (some-inj h2)))
    ]
  ]
]

identity-known :
    (ps : Dict (List String)) (d : Dict Value) (i : String) (kind : Kind)
    → stored_identity ps d ≡ some (i, kind)
    → (xs : List String) × (lookup i ps ≡ some xs)
unfolding stored_identity
identity-known ps d i kind h =
    let (j, e1, h1) = >>=-eq-some (as_str (get "participant_id" d)) _ h in
    let (w, e2, h2) = >>=-eq-some (guard (is_some (lookup j ps))) _ h1 in
    let (s, e3, h3) = >>=-eq-some (as_str (get "kind" d)) _ h2 in
    let (kind', e4, h4) = >>=-eq-some (kind_of s) _ h3 in
    let same : j ≡ i = ap (λ x. x.0) (some-inj h4) in
    let there = guard-eq-some (is_some (lookup j ps)) w e2 in
    elim (Option-cases (lookup j ps)) [
      | inl f ↦ absurd (ground arith)
      | inr (xs, f) ↦ (xs, ap (λ x. lookup x ps) (sym same) ∙ f)
    ]

member-facts :
    (ps : Dict (List String)) (held routes : List String) (v : Value) (m : Membership)
    → stored_member ps held routes v ≡ some m
    → ((xs : List String) × (lookup m.participant_id ps ≡ some xs))
      × (is_active m.status ≡ true → contains m.participant_id held ≡ false)
unfolding stored_member
member-facts ps held routes v m h =
    let (d, e1, h1) = >>=-eq-some (as_dict v) _ h in
    let (whose, e2, h2) = >>=-eq-some (stored_identity ps d) _ h1 in
    let (started, e3, h3) = >>=-eq-some (timestamp_of (get "started_at" d)) _ h2 in
    let (status, e4, h4) = >>=-eq-some (interval_of held whose.0 started d) _ h3 in
    let (way, e5, h5) = >>=-eq-some (stored_route routes d) _ h4 in
    let same = some-inj h5 in
    let id : whose.0 ≡ m.participant_id = ap (λ x. x.participant_id) same in
    (
      subst (λ x. (xs : List String) × (lookup x ps ≡ some xs)) id
          (identity-known ps d whose.0 whose.1 e2),
      λ a.
          ap (λ x. contains x held) (sym id)
          ∙ interval-new held whose.0 started d status e4 (ap (λ x. is_active x.status) same ∙ a),
    )

abbrev now_held : List String → Membership → List String
now_held held m = if is_active m.status then m.participant_id ∷ held else held

-- The steps of one membership.
members-cons :
    (ps : Dict (List String)) (held routes : List String) (k : String) (v : Value) (vs : Dict Value)
    (ms : Dict Membership)
    → stored_members ps held routes ((k, v) ∷ vs) ≡ some ms
    → (m : Membership) × (rest : Dict Membership) × (stored_member ps held routes v ≡ some m)
      × (stored_members ps (now_held held m) (m.route ∷ routes) vs ≡ some rest)
      × (ms ≡ (k, m) ∷ rest)
unfolding stored_members
members-cons ps held routes k v vs ms h =
    let (w, e1, h1) = >>=-eq-some (guard (is_opaque "membership" k)) _ h in
    let (m, e2, h2) = >>=-eq-some (stored_member ps held routes v) _ h1 in
    let (rest, e3, h3) =
      >>=-eq-some (stored_members ps (now_held held m) (m.route ∷ routes) vs) _ h2 in
    (m, rest, e2, e3, sym (some-inj h3))

members-none :
    (ps : Dict (List String)) (held routes : List String) (vs : Dict Value) (ms : Dict Membership)
    (k : String)
    → stored_members ps held routes vs ≡ some ms
    → lookup k vs ≡ none
    → lookup k ms ≡ none
unfolding stored_members lookup
members-none ps held routes [] ms k h l = ap (lookup k) (sym (some-inj h))
members-none ps held routes ((j, v) ∷ vs) ms k h l =
    let (m, rest, e, f, same) = members-cons ps held routes j v vs ms h in
    let tail = members-none ps (now_held held m) (m.route ∷ routes) vs rest k f (ground arith) in
    ap (lookup k) same ∙ ground arith

members-IsDict :
    (ps : Dict (List String)) (held routes : List String) (vs : Dict Value) (ms : Dict Membership)
    → IsDict vs
    → stored_members ps held routes vs ≡ some ms
    → IsDict ms
unfolding stored_members
members-IsDict ps held routes [] ms u h = subst IsDict (some-inj h) tt
members-IsDict ps held routes ((j, v) ∷ vs) ms u h =
    let (m, rest, e, f, same) = members-cons ps held routes j v vs ms h in
    subst IsDict (sym same) (
      members-none ps (now_held held m) (m.route ∷ routes) vs rest j f u.0,
      members-IsDict ps (now_held held m) (m.route ∷ routes) vs rest u.1 f,
    )

members-AreKnown :
    (ps : Dict (List String)) (held routes : List String) (vs : Dict Value) (ms : Dict Membership)
    → stored_members ps held routes vs ≡ some ms
    → AreKnown ps ms
unfolding stored_members lookup
members-AreKnown ps held routes [] ms h k m l = absurd (ground (arith, ap (lookup k) (some-inj h)))
members-AreKnown ps held routes ((j, v) ∷ vs) ms h k m l =
    let (n, rest, e, f, same) = members-cons ps held routes j v vs ms h in
    let l' : lookup k ((j, n) ∷ rest) ≡ some m = ap (lookup k) (sym same) ∙ l in
    elim (Bool-cases (str_eq j k)) [
      | inl c ↦
          let is : n ≡ m = ground arith in
          subst (λ x. (xs : List String) × (lookup x.participant_id ps ≡ some xs)) is
            (member-facts ps held routes v n e).0
      | inr c ↦
          members-AreKnown ps (now_held held n) (n.route ∷ routes) vs rest f k m (ground arith)
    ]

members-new :
    (ps : Dict (List String)) (held routes : List String) (vs : Dict Value) (ms : Dict Membership)
    (k : String) (m : Membership)
    → stored_members ps held routes vs ≡ some ms
    → lookup k ms ≡ some m
    → is_active m.status ≡ true
    → contains m.participant_id held ≡ false
unfolding stored_members lookup contains
members-new ps held routes [] ms k m h l a = absurd (ground (arith, ap (lookup k) (some-inj h)))
members-new ps held routes ((j, v) ∷ vs) ms k m h l a =
    let (n, rest, e, f, same) = members-cons ps held routes j v vs ms h in
    let l' : lookup k ((j, n) ∷ rest) ≡ some m = ap (lookup k) (sym same) ∙ l in
    elim (Bool-cases (str_eq j k)) [
      | inl c ↦
          let is : n ≡ m = ground arith in
          subst (λ x. is_active x.status ≡ true → contains x.participant_id held ≡ false) is
            (member-facts ps held routes v n e).1 a
      | inr c ↦
          let free =
            members-new ps (now_held held n) (n.route ∷ routes) vs rest k m f (ground arith) a in
          elim (Bool-cases (is_active n.status)) [ inl b ↦ ground arith | inr b ↦ ground arith ]
    ]

members-OneActive :
    (ps : Dict (List String)) (held routes : List String) (vs : Dict Value) (ms : Dict Membership)
    → stored_members ps held routes vs ≡ some ms
    → OneActive ms
unfolding stored_members lookup contains
members-OneActive ps held routes [] ms h k l m n e f a b s =
    absurd (ground (arith, ap (lookup k) (some-inj h)))
members-OneActive ps held routes ((j, v) ∷ vs) ms h k l m n e f a b s =
    let (x, rest, r, t, same) = members-cons ps held routes j v vs ms h in
    let e' : lookup k ((j, x) ∷ rest) ≡ some m = ap (lookup k) (sym same) ∙ e in
    let f' : lookup l ((j, x) ∷ rest) ≡ some n = ap (lookup l) (sym same) ∙ f in
    let apart : (i : String) (y : Membership)
        → lookup i rest ≡ some y
        → is_active y.status ≡ true
        → is_active x.status ≡ true
        → x.participant_id ≢ y.participant_id =
      λ i y p q c d.
        let free = members-new ps (now_held held x) (x.route ∷ routes) vs rest i y t p q in
        absurd (ground (arith, str_eq_iff x.participant_id y.participant_id)) in
    elim (Bool-cases (str_eq j k)) [
      | inl jk ↦
          let is : x ≡ m = ground arith in
          elim (Bool-cases (str_eq j l)) [
            | inl jl ↦ sym ((str_eq_iff j k).0 jk) ∙ (str_eq_iff j l).0 jl
            | inr ol ↦ absurd (
                apart l n (ground arith) b (ap (λ y. is_active y.status) is ∙ a)
                  (ap (λ y. y.participant_id) is ∙ s))
          ]
      | inr ok ↦ elim (Bool-cases (str_eq j l)) [
        | inl jl ↦
            let is : x ≡ n = ground arith in
            absurd (
              apart k m (ground arith) a (ap (λ y. is_active y.status) is ∙ b)
                (ap (λ y. y.participant_id) is ∙ sym s))
        | inr ol ↦
            members-OneActive ps (now_held held x) (x.route ∷ routes) vs rest t k l m n
              (ground arith) (ground arith) a b s
      ]
    ]

-- A snapshot lists no key of its participants or its memberships twice.
abbrev pub HasKeysOnce : Value → Type 0
HasKeysOnce v =
    (d es : Dict Value)
    → as_dict v ≡ some d
    → (as_dict (get "participants" d) ≡ some es) ⊎ (as_dict (get "memberships" d) ≡ some es)
    → IsDict es

-- A snapshot that `_validate` accepts is well-formed data, with no alias twice and each alias in its
-- canonical form, where its dicts list no key twice.
pub validated-IsGuestData :
    (v : Value) (d : GuestData)
    → HasKeysOnce v
    → validated v ≡ some d
    → IsGuestData d
      × AreDistinct d.participants
      × ((i a : String) (xs : List String)
          → lookup i d.participants ≡ some xs
          → contains a xs ≡ true
          → jid a ≡ some a)
unfolding validated
validated-IsGuestData v d u h =
    let (top, e0, h0) = >>=-eq-some (as_dict v) _ h in
    let (w, e1, h1) = >>=-eq-some (guard (is_version (get "version" top))) _ h0 in
    let (participants, e2, h2) = >>=-eq-some (as_dict (get "participants" top)) _ h1 in
    let (memberships, e3, h3) = >>=-eq-some (as_dict (get "memberships" top)) _ h2 in
    let (state, e4, h4) =
      >>=-eq-some (stored_state (has_entries participants || has_entries memberships) top) _ h3 in
    let (ps, ep, h10) = >>=-eq-some (stored_participants [] participants) _ h4 in
    let (ms, em, h11) = >>=-eq-some (stored_members ps [] [] memberships) _ h10 in
    let same = some-inj h11 in
    let book : IsBook ps ms = record {
      participants_dict =
          participants-IsDict [] participants ps (u top participants e0 (inl e2)) ep;
      memberships_dict = members-IsDict ps [] [] memberships ms (u top memberships e0 (inr e3)) em;
      owned = participants-AreOwned [] participants ps ep;
      single = members-OneActive ps [] [] memberships ms em;
      known = members-AreKnown ps [] [] memberships ms em;
    } in
    (
      subst IsGuestData same book,
      subst (λ x. AreDistinct x.participants) same (participants-AreDistinct [] participants ps ep),
      λ i a xs l c.
          (participants-new [] participants ps i a xs ep
            (ap (λ x. lookup i x.participants) same ∙ l) c).1,
    )
