-- ===== src/Guests/Members.antt =====
-- `_member` and the memberships of a guest group.
use home_assistant_whatsapp.Base.{
  Bool-cases, String, [], ap, arith, inl, inr, none, some, str_eq, str_eq_iff, sym, true, ◌∙◌, ◌∷◌,
  ◌≡◌, ◌≢◌, ◌&&◌,
}
use home_assistant_whatsapp.Dict.{Dict, IsDict, insert, lookup, lookup-insert}
use home_assistant_whatsapp.Guests.Roster.{member_of}
use home_assistant_whatsapp.Guests.Types.{Membership, is_active}

-- A participant has one active membership at most.
abbrev pub OneActive : Dict Membership → Type 0
OneActive ms =
    (k l : String) (m n : Membership)
    → lookup k ms ≡ some m
    → lookup l ms ≡ some n
    → is_active m.status ≡ true
    → is_active n.status ≡ true
    → m.participant_id ≡ n.participant_id
    → k ≡ l

pub member_none :
    (i k : String) (ms : Dict Membership) (m : Membership)
    → member_of i ms ≡ none
    → lookup k ms ≡ some m
    → is_active m.status ≡ true
    → m.participant_id ≢ i
unfolding member_of lookup
member_none i k [] m h e a = absurd (cc)
member_none i k ((j, n) ∷ ms) m h e a = elim (Bool-cases (str_eq j k)) [
  | inl same ↦
      let e' : n ≡ m = ground arith in
      λ p. absurd (
        ground (
          arith,
          str_eq_iff n.participant_id i,
          ap (λ x. x.participant_id) e',
          ap (λ x. is_active x.status) e',
        ))
  | inr other ↦ member_none i k ms m (ground arith) (ground arith) a
]

pub member_some :
    (i k : String) (ms : Dict Membership) (m : Membership)
    → IsDict ms
    → member_of i ms ≡ some (k, m)
    → (lookup k ms ≡ some m) × (m.participant_id ≡ i) × (is_active m.status ≡ true)
unfolding member_of lookup
member_some i k [] m u h = absurd (cc)
member_some i k ((j, n) ∷ ms) m u h =
    elim (Bool-cases (str_eq n.participant_id i && is_active n.status)) [
      | inl c ↦
          let e : n ≡ m = ground arith in
          let e' : j ≡ k = ground arith in
          (
            ground (arith, str_eq_iff j k),
            ground (arith, str_eq_iff n.participant_id i, ap (λ x. x.participant_id) e),
            ground (arith, ap (λ x. is_active x.status) e),
          )
      | inr c ↦
          let (l, p, a) = member_some i k ms m u.1 (ground arith) in
          (ground (arith, str_eq_iff j k), p, a)
    ]

module _ (k : String) (m : Membership) (ms : Dict Membership) (single : OneActive ms) where
  -- An entry is written that no other active membership of its participant stands beside.
  pub insert-OneActive :
      ((l : String) (n : Membership)
        → lookup l ms ≡ some n
        → is_active n.status ≡ true
        → n.participant_id ≡ m.participant_id
        → l ≡ k)
      → OneActive (insert k m ms)
  insert-OneActive alone j l p q e f a b s = elim (Bool-cases (str_eq k j)) [
    | inl kj ↦
        let ep : m ≡ p = ground (arith, lookup-insert k j m ms) in
        elim (Bool-cases (str_eq k l)) [
          | inl kl ↦ sym ((str_eq_iff k j).0 kj) ∙ (str_eq_iff k l).0 kl
          | inr ol ↦
              sym ((str_eq_iff k j).0 kj)
              ∙ sym (
                  alone l q (ground (arith, lookup-insert k l m ms)) b
                    (sym s ∙ sym (ap (λ x. x.participant_id) ep)))
        ]
    | inr oj ↦
        let e' : lookup j ms ≡ some p = ground (arith, lookup-insert k j m ms) in
        elim (Bool-cases (str_eq k l)) [
          | inl kl ↦
              let eq : m ≡ q = ground (arith, lookup-insert k l m ms) in
              alone j p e' a (s ∙ sym (ap (λ x. x.participant_id) eq)) ∙ (str_eq_iff k l).0 kl
          | inr ol ↦ single j l p q e' (ground (arith, lookup-insert k l m ms)) a b s
        ]
  ]
