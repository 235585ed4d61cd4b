-- ===== src/Guests/Departures.antt =====
-- The loop of `async_reconcile` that closes the memberships of the absent.
use mathlib.Core.Path.{subst}
use home_assistant_whatsapp.Guests.Types.{MembershipChange}
use home_assistant_whatsapp.Base.{
  Bool-cases, List, Option, Option-cases, String, [], ap, arith, contains, inl, inr, none, or_else,
  refl, some, some-inj, str_eq, str_eq_iff, sym, true, not, ℕ, ◌∙◌, ◌||◌, ◌∷◌, ◌≡◌, ◌⊎◌,
}
use home_assistant_whatsapp.Dict.{Dict, IsDict, lookup}
use home_assistant_whatsapp.Guests.Book.{AreKnown, IsBook}
use home_assistant_whatsapp.Guests.Reconcile.{change_of, close_absent}
use home_assistant_whatsapp.Guests.Hints.{HintType, provenance, leave}
use home_assistant_whatsapp.Guests.Types.{Membership, departed, is_active, left}

-- What became of a membership: it was left alone, or it was closed.
pub record IsClosing (seen : List String) (m n : Membership) : Type 0 where
  pub same_participant : n.participant_id ≡ m.participant_id
  pub still : is_active n.status ≡ true → (n ≡ m) × (contains m.participant_id seen ≡ true)
  pub kept : contains m.participant_id seen ≡ true → n ≡ m

module _ (uuid : ℕ → String) (account : Option String) (previous : Option ℕ)
    (hints : Dict (HintType × ℕ)) (when : ℕ) (ps : Dict (List String)) (seen : List String) where
  abbrev closed : Dict Membership → Option (Dict Membership × List MembershipChange)
  closed ms = close_absent uuid account previous hints when ps seen ms

  abbrev gave :
      Dict Membership → List MembershipChange → Option (Dict Membership × List MembershipChange)
  gave ns changes = some (ns, changes)

  close-cons :
      (k : String) (m : Membership) (ms ns : Dict Membership) (changes : List MembershipChange)
      → closed ((k, m) ∷ ms) ≡ some (ns, changes)
      → (n : Membership) × (rest : Dict Membership) × (later : List MembershipChange) × (closed ms
          ≡ some (rest, later))
        × (ns ≡ (k, n) ∷ rest)
        × IsClosing seen m n
  unfolding close_absent
  close-cons k m ms ns changes h = elim (Option-cases (closed ms)) [
    | inl e ↦ absurd (ground arith)
    | inr ((rest, later), e) ↦
        elim (Bool-cases (not (is_active m.status) || contains m.participant_id seen)) [
          | inl c ↦
              let all : gave ((k, m) ∷ rest) later ≡ gave ns changes = ground arith in
              let same : (k, m) ∷ rest ≡ ns = ap (λ x. x.0) (some-inj all) in
              (
                m,
                rest,
                later,
                e,
                sym same,
                record {
                  same_participant = refl;
                  still = λ a. (refl, ground arith);
                  kept = λ d. refl;
                },
              )
          | inr c ↦ elim (Option-cases (lookup m.participant_id ps)) [
            | inl f ↦ absurd (ground arith)
            | inr (aliases, f) ↦
                let p = provenance previous hints aliases leave in
                let n : Membership = record m { status = left (or_else p.1 when) } in
                let all : gave ((k, n) ∷ rest)
                      (change_of departed m.participant_id k when p ∷ later)
                    ≡ gave ns changes =
                  ground arith in
                let same : (k, n) ∷ rest ≡ ns = ap (λ x. x.0) (some-inj all) in
                (
                  n,
                  rest,
                  later,
                  e,
                  sym same,
                  record {
                    same_participant = refl;
                    still = λ a. absurd (ground arith);
                    kept = λ d. absurd (ground arith);
                  },
                )
          ]
        ]
  ]

  close-lookup :
      (k : String) (ms ns : Dict Membership) (changes : List MembershipChange)
      → closed ms ≡ some (ns, changes)
      → ((lookup k ms ≡ none) × (lookup k ns ≡ none))
        ⊎ ((m : Membership) × (n : Membership) × (lookup k ms ≡ some m)
            × (lookup k ns ≡ some n)
            × IsClosing seen m n)
  unfolding close_absent lookup
  close-lookup k [] ns changes h = inl (refl, ground (arith, ap (λ x. lookup k x.0) (some-inj h)))
  close-lookup k ((j, m) ∷ ms) ns changes h =
      let (n, rest, later, e, same, c) = close-cons j m ms ns changes h in
      elim (Bool-cases (str_eq j k)) [
        | inl here ↦ inr (m, n, ground arith, ap (lookup k) same ∙ ground arith, c)
        | inr other ↦ elim (close-lookup k ms rest later e) [
          | inl (a, b) ↦ inl (ground arith, ap (lookup k) same ∙ ground arith)
          | inr (m', n', a, b, d) ↦ inr (m', n', ground arith, ap (lookup k) same ∙ ground arith, d)
        ]
      ]

  close-none :
      (k : String) (ms ns : Dict Membership) (changes : List MembershipChange)
      → closed ms ≡ some (ns, changes)
      → lookup k ms ≡ none
      → lookup k ns ≡ none
  close-none k ms ns changes h e = elim (close-lookup k ms ns changes h) [
    | inl (a, b) ↦ b
    | inr (m, n, a, b, c) ↦ absurd (ground arith)
  ]

  close-IsDict :
      (ms ns : Dict Membership) (changes : List MembershipChange)
      → IsDict ms
      → closed ms ≡ some (ns, changes)
      → IsDict ns
  unfolding close_absent
  close-IsDict [] ns changes u h = subst IsDict (ap (λ x. x.0) (some-inj h)) tt
  close-IsDict ((j, m) ∷ ms) ns changes u h =
      let (n, rest, later, e, same, c) = close-cons j m ms ns changes h in
      subst IsDict (sym same) (close-none j ms rest later e u.0, close-IsDict ms rest later u.1 e)

  pub close-origin :
      (k : String) (ms ns : Dict Membership) (changes : List MembershipChange) (n : Membership)
      → closed ms ≡ some (ns, changes)
      → lookup k ns ≡ some n
      → (m : Membership) × (lookup k ms ≡ some m) × IsClosing seen m n
  close-origin k ms ns changes n h e = elim (close-lookup k ms ns changes h) [
    | inl (a, b) ↦ absurd (ground arith)
    | inr (m, n', a, b, c) ↦ (m, a, subst (IsClosing seen m) (some-inj (sym b ∙ e)) c)
  ]

  -- A participant of the roster keeps the membership.
  pub close-stays :
      (k : String) (ms ns : Dict Membership) (changes : List MembershipChange) (m : Membership)
      → closed ms ≡ some (ns, changes)
      → lookup k ms ≡ some m
      → contains m.participant_id seen ≡ true
      → lookup k ns ≡ some m
  close-stays k ms ns changes m h e c = elim (close-lookup k ms ns changes h) [
    | inl (a, b) ↦ absurd (ground arith)
    | inr (m', n, a, b, d) ↦
        let same = some-inj (sym a ∙ e) in
        b ∙ ap some (d.kept (ap (λ x. contains x.participant_id seen) same ∙ c) ∙ same)
  ]

  -- No membership is without its participant, so the loop comes to its end.
  pub close_total :
      (ms : Dict Membership)
      → IsDict ms
      → AreKnown ps ms
      → (ns : Dict Membership) × (changes : List MembershipChange) × (closed ms
          ≡ some (ns, changes))
  unfolding close_absent lookup
  close_total [] u v = ([], [], refl)
  close_total ((k, m) ∷ ms) u v =
      let tail : AreKnown ps ms =
        λ j n e. v j n (ground (arith, str_eq_iff k j, ap (λ x. lookup x ms))) in
      let (rest, later, e) = close_total ms u.1 tail in
      let (xs, f) = v k m (ground (arith, str_eq_iff k k)) in
      elim (Bool-cases (not (is_active m.status) || contains m.participant_id seen)) [
        | inl c ↦ ((k, m) ∷ rest, later, ground arith)
        | inr c ↦
            let p = provenance previous hints xs leave in
            let n : Membership = record m { status = left (or_else p.1 when) } in
            ((k, n) ∷ rest, change_of departed m.participant_id k when p ∷ later, rw (e, c, f) refl)
      ]

  pub close-IsBook :
      (ms ns : Dict Membership) (changes : List MembershipChange)
      → IsBook ps ms
      → closed ms ≡ some (ns, changes)
      → IsBook ps ns
  close-IsBook ms ns changes v h = record {
    participants_dict = v.participants_dict;
    memberships_dict = close-IsDict ms ns changes v.memberships_dict h;
    owned = v.owned;
    single = λ k l m n e f a b s.
        let (m', em, cm) = close-origin k ms ns changes m h e in
        let (n', en, cn) = close-origin l ms ns changes n h f in
        let (im, _) = cm.still a in
        let (in', _) = cn.still b in
        v.single k l m' n' em en (ap (λ x. is_active x.status) (sym im) ∙ a)
          (ap (λ x. is_active x.status) (sym in') ∙ b)
          (sym cm.same_participant ∙ s ∙ cn.same_participant);
    known = λ k m e.
        let (m', em, cm) = close-origin k ms ns changes m h e in
        let (xs, f) = v.known k m' em in (xs, ap (λ i. lookup i ps) cm.same_participant ∙ f);
  }
