-- ===== src/Guests/Retention.antt =====
-- `_prune`, on the memberships and the participants of a guest group.
use home_assistant_whatsapp.Base.{
  Bool, if◌then◌else◌, ◌⊎◌, Bool-cases, List, Option-cases, String, [], ap, arith, contains, drop,
  inl, inr, none, refl, some, str_eq, str_eq_iff, sym, take, true, false, ℕ, ◌∙◌, ◌∷◌, ◌≡◌,
}
use home_assistant_whatsapp.Dict.{Dict, IsDict, erase, erase-IsDict, keys, lookup, lookup-erase}
use home_assistant_whatsapp.Guests.Book.{IsGuestData}
use home_assistant_whatsapp.Guests.Linked.{AreDistinct}
use home_assistant_whatsapp.Guests.Roster.{
  closed_memberships, erase_all, expired, insert_closed, left_at, max_closed_memberships,
  member_ids, prune_data, pruned_memberships, retained_participants,
}
use home_assistant_whatsapp.Guests.Types.{GuestData, Membership, is_active}

lookup-retained :
    (ids : List String) (i : String) (ps : Dict (List String))
    → IsDict ps
    → lookup i (retained_participants ids ps) ≡ (if contains i ids then lookup i ps else none)
unfolding retained_participants lookup
lookup-retained ids i [] u = ground arith
lookup-retained ids i ((j, xs) ∷ ps) u =
    ground (arith, lookup-retained ids i ps u.1, str_eq_iff j i, u.0)

retained-IsDict :
    (ids : List String) (ps : Dict (List String))
    → IsDict ps
    → IsDict (retained_participants ids ps)
unfolding retained_participants
retained-IsDict ids [] u = tt
retained-IsDict ids ((j, xs) ∷ ps) u =
    ground (arith, retained-IsDict ids ps u.1, lookup-retained ids j ps u.1, u.0)

contains-member_ids :
    (k : String) (ms : Dict Membership) (m : Membership)
    → lookup k ms ≡ some m
    → contains m.participant_id (member_ids ms) ≡ true
unfolding member_ids lookup contains
contains-member_ids k [] m h = absurd (cc)
contains-member_ids k ((j, n) ∷ ms) m h = elim (Bool-cases (str_eq j k)) [
  | inl same ↦
      let e : n ≡ m = ground arith in
      ground (arith, str_eq_iff n.participant_id m.participant_id, ap (λ x. x.participant_id) e)
  | inr other ↦ let rest = contains-member_ids k ms m (ground arith) in ground arith
]

lookup-erase_all :
    (k : String) (cs : List (String × ℕ)) (ms : Dict Membership)
    → lookup k (erase_all cs ms) ≡ (if contains k (keys cs) then none else lookup k ms)
unfolding erase_all contains
lookup-erase_all k [] ms = refl
lookup-erase_all k ((j, t) ∷ cs) ms =
    ground (arith, lookup-erase_all k cs (erase j ms), lookup-erase j k ms)

erase_all-IsDict :
    (cs : List (String × ℕ)) (ms : Dict Membership) → IsDict ms → IsDict (erase_all cs ms)
unfolding erase_all
erase_all-IsDict [] ms u = u
erase_all-IsDict ((j, t) ∷ cs) ms u = erase_all-IsDict cs (erase j ms) (erase-IsDict j ms u)

contains-expired :
    (k : String) (now : ℕ) (cs : List (String × ℕ))
    → contains k (keys (expired now cs)) ≡ true
    → contains k (keys cs) ≡ true
unfolding expired contains
contains-expired k now [] h = h
contains-expired k now ((j, t) ∷ cs) h = ground (arith, contains-expired k now cs)

contains-take :
    (k : String) (n : ℕ) (cs : List (String × ℕ))
    → contains k (keys (take n cs)) ≡ true
    → contains k (keys cs) ≡ true
unfolding contains
contains-take k ℕ.zero cs h = absurd (ground arith)
contains-take k (ℕ.suc n) [] h = h
contains-take k (ℕ.suc n) (c ∷ cs) h = ground (arith, contains-take k n cs)

contains-drop :
    (k : String) (n : ℕ) (cs : List (String × ℕ))
    → contains k (keys (drop n cs)) ≡ true
    → contains k (keys cs) ≡ true
unfolding contains
contains-drop k ℕ.zero cs h = h
contains-drop k (ℕ.suc n) [] h = h
contains-drop k (ℕ.suc n) (c ∷ cs) h = ground (arith, contains-drop k n cs)

contains-insert_closed :
    (k j : String) (t : ℕ) (cs : List (String × ℕ))
    → contains k (keys (insert_closed j t cs)) ≡ true
    → (str_eq j k ≡ true) ⊎ (contains k (keys cs) ≡ true)
unfolding insert_closed contains
contains-insert_closed k j t [] h = inl (ground arith)
contains-insert_closed k j t ((i, u) ∷ cs) h = elim (Bool-cases (str_eq j k)) [
  | inl same ↦ inl same
  | inr other ↦ let rest = contains-insert_closed k j t cs in inr (ground (arith, rest))
]

left_at-closed : (m : Membership) (t : ℕ) → left_at m ≡ some t → is_active m.status ≡ false
left_at-closed m t h = elim (Bool-cases (is_active m.status)) [ inl a ↦ ground arith | inr c ↦ c ]

-- A key of the closed memberships is that of the first one, if it is closed, or a later one.
closed-step :
    (k j : String) (n : Membership) (ms : Dict Membership)
    → contains k (keys (closed_memberships ((j, n) ∷ ms))) ≡ true
    → ((str_eq j k ≡ true) × (is_active n.status ≡ false))
      ⊎ (contains k (keys (closed_memberships ms)) ≡ true)
unfolding closed_memberships
closed-step k j n ms h = elim (Option-cases (left_at n)) [
  | inl e ↦ inr (ground arith)
  | inr (t, e) ↦ elim (contains-insert_closed k j t (closed_memberships ms) (ground arith)) [
    | inl same ↦ inl (same, left_at-closed n t e)
    | inr rest ↦ inr rest
  ]
]

closed-known :
    (k : String) (ms : Dict Membership)
    → lookup k ms ≡ none
    → contains k (keys (closed_memberships ms)) ≡ false
unfolding lookup contains closed_memberships
closed-known k [] l = refl
closed-known k ((j, n) ∷ ms) l =
    elim (Bool-cases (contains k (keys (closed_memberships ((j, n) ∷ ms))))) [
      | inr c ↦ c
      | inl c ↦ elim (closed-step k j n ms c) [
        | inl (same, closed) ↦ absurd (ground arith)
        | inr rest ↦ let none_left = closed-known k ms (ground arith) in absurd (ground arith)
      ]
    ]

-- An active membership is not listed as closed.
active-open :
    (k : String) (ms : Dict Membership) (m : Membership)
    → IsDict ms
    → lookup k ms ≡ some m
    → is_active m.status ≡ true
    → contains k (keys (closed_memberships ms)) ≡ false
unfolding lookup contains closed_memberships
active-open k [] m u l a = refl
active-open k ((j, n) ∷ ms) m u l a =
    elim (Bool-cases (contains k (keys (closed_memberships ((j, n) ∷ ms))))) [
      | inr c ↦ c
      | inl c ↦ elim (Bool-cases (str_eq j k)) [
        | inl same ↦
            let e : n ≡ m = ground arith in
            let other =
              closed-known k ms (ap (λ x. lookup x ms) (sym ((str_eq_iff j k).0 same)) ∙ u.0) in
            elim (closed-step k j n ms c) [
              | inl (d, closed) ↦ absurd (ground (arith, ap (λ x. is_active x.status) e))
              | inr rest ↦ absurd (ground arith)
            ]
        | inr differ ↦
            let open_left = active-open k ms m u.1 (ground arith) a in
            elim (closed-step k j n ms c) [
              | inl (d, closed) ↦ absurd (ground arith)
              | inr rest ↦ absurd (ground arith)
            ]
      ]
    ]

refute : (b : Bool) → ((b ≡ true) → ⊥) → b ≡ false
refute true h = absurd (h refl)
refute false h = refl

retained-origin :
    (ids : List String) (i : String) (ps : Dict (List String)) (xs : List String)
    → IsDict ps
    → lookup i (retained_participants ids ps) ≡ some xs
    → lookup i ps ≡ some xs
retained-origin ids i ps xs u h = ground (arith, lookup-retained ids i ps u)

pruned-IsDict : (now : ℕ) (ms : Dict Membership) → IsDict ms → IsDict (pruned_memberships now ms)
unfolding pruned_memberships
pruned-IsDict now ms u = erase_all-IsDict _ _ (erase_all-IsDict _ ms u)

-- What `_prune` leaves of the memberships: all active ones, and nothing new.
pub pruned-origin :
    (now : ℕ) (k : String) (ms : Dict Membership) (m : Membership)
    → lookup k (pruned_memberships now ms) ≡ some m
    → lookup k ms ≡ some m
unfolding pruned_memberships
pruned-origin now k ms m h =
    let closed = closed_memberships ms in
    let late = drop max_closed_memberships closed in
    let old = expired now (take max_closed_memberships closed) in
    ground (arith, lookup-erase_all k late ms, lookup-erase_all k old (erase_all late ms))

pub pruned-keeps :
    (now : ℕ) (k : String) (ms : Dict Membership) (m : Membership)
    → IsDict ms
    → lookup k ms ≡ some m
    → is_active m.status ≡ true
    → lookup k (pruned_memberships now ms) ≡ some m
unfolding pruned_memberships
pruned-keeps now k ms m u l a =
    let closed = closed_memberships ms in
    let late = drop max_closed_memberships closed in
    let old = expired now (take max_closed_memberships closed) in
    let free = active-open k ms m u l a in
    let not_late =
      refute (contains k (keys late))
        (λ h. ground (arith, free, contains-drop k max_closed_memberships closed h)) in
    let not_old = refute (contains k (keys old)) (λ h. ground (
      arith,
      free,
      contains-take k max_closed_memberships closed
          (contains-expired k now (take max_closed_memberships closed) h),
    )) in
    lookup-erase_all k old (erase_all late ms)
    ∙ ap (λ b. if b then none else lookup k (erase_all late ms)) not_old
    ∙ lookup-erase_all k late ms
    ∙ ap (λ b. if b then none else lookup k ms) not_late
    ∙ l

pub prune-IsGuestData : (d : GuestData) (now : ℕ) → IsGuestData d → IsGuestData (prune_data d now)
unfolding prune_data
prune-IsGuestData d now v =
    let ms = pruned_memberships now d.memberships in
    let from = pruned-origin now in
    record {
      participants_dict = retained-IsDict (member_ids ms) d.participants v.participants_dict;
      memberships_dict = pruned-IsDict now d.memberships v.memberships_dict;
      owned = λ a i j xs ys e f.
          v.owned a i j xs ys
            (retained-origin (member_ids ms) i d.participants xs v.participants_dict e)
            (retained-origin (member_ids ms) j d.participants ys v.participants_dict f);
      single =
          λ k l m n e f. v.single k l m n (from k d.memberships m e) (from l d.memberships n f);
      known = λ k m e.
          let (xs, f) = v.known k m (from k d.memberships m e) in
          (
            xs,
            ground (
              arith,
              lookup-retained (member_ids ms) m.participant_id d.participants v.participants_dict,
              contains-member_ids k ms m e,
            ),
          );
    }

-- The participant of a membership that is left is left too.
pub retained-member :
    (d : GuestData) (now : ℕ) (k : String) (m : Membership) (xs : List String)
    → IsDict d.participants
    → lookup k (pruned_memberships now d.memberships) ≡ some m
    → lookup m.participant_id d.participants ≡ some xs
    → lookup m.participant_id (prune_data d now).participants ≡ some xs
unfolding prune_data
retained-member d now k m xs u e f =
    let ms = pruned_memberships now d.memberships in
    ground (
      arith,
      lookup-retained (member_ids ms) m.participant_id d.participants u,
      contains-member_ids k ms m e,
    )

-- The participants that are kept repeat no alias if none did.
pub prune-AreDistinct :
    (d : GuestData) (now : ℕ)
    → IsDict d.participants
    → AreDistinct d.participants
    → AreDistinct (prune_data d now).participants
unfolding prune_data
prune-AreDistinct d now u v i xs h =
    v i xs
      (retained-origin (member_ids (pruned_memberships now d.memberships)) i d.participants xs u h)
