-- ===== src/Guests/Aliases.antt =====
-- `_resolve_identity` and the aliases of the participants.
use mathlib.Core.Path.{subst}
use home_assistant_whatsapp.Base.{
  >>=-eq-some, Bool-cases, List, Option-cases, String, [], ap, arith, contains, contains-append,
  false, guard, guard-eq-some, inl, inr, none, or_else, refl, some, some-inj, str_eq, str_eq_iff,
  sym, true, ℕ, ◌++◌, ◌+◌, ◌∙◌, ◌∷◌, ◌≡◌,
}
use home_assistant_whatsapp.Dict.{
  Dict, IsDict, insert, insert-IsDict, lookup, lookup-insert, lookup-insert_self,
}
use home_assistant_whatsapp.Guests.Identity.{fresh_id}
use home_assistant_whatsapp.Guests.Sets.{contains-sorted_set}
use home_assistant_whatsapp.Guests.Roster.{
  owned, Resolved, alias_owner, has_items, jids, owners_of, resolve_identity_of, resolve_jids,
  sorted_set,
}

-- No alias belongs to two participants.
abbrev pub AreOwned : Dict (List String) → Type 0
AreOwned ps =
    (a i j : String) (xs ys : List String)
    → lookup i ps ≡ some xs
    → lookup j ps ≡ some ys
    → contains a xs ≡ true
    → contains a ys ≡ true
    → i ≡ j

pub owner_none :
    (a i : String) (ps : Dict (List String)) (xs : List String)
    → alias_owner a ps ≡ none
    → lookup i ps ≡ some xs
    → contains a xs ≡ false
unfolding alias_owner lookup
owner_none a i [] xs h e = absurd (cc)
owner_none a i ((k, ys) ∷ ps) xs h e = elim (Bool-cases (str_eq k i)) [
  | inl same ↦
      let e' : ys ≡ xs = ground arith in subst (λ zs. contains a zs ≡ false) e' (ground arith)
  | inr other ↦ owner_none a i ps xs (ground arith) (ground arith)
]

pub owner_some :
    (a o : String) (ps : Dict (List String))
    → IsDict ps
    → alias_owner a ps ≡ some o
    → (xs : List String) × (lookup o ps ≡ some xs) × (contains a xs ≡ true)
unfolding alias_owner lookup
owner_some a o [] u h = absurd (cc)
owner_some a o ((k, ys) ∷ ps) u h = elim (Bool-cases (contains a ys)) [
  | inl c ↦ let e : k ≡ o = ground arith in (ys, ground (arith, str_eq_iff k o), c)
  | inr c ↦
      let (xs, l, d) = owner_some a o ps u.1 (ground arith) in
      (xs, ground (arith, str_eq_iff k o), d)
]

pub contains-owners_of :
    (a o : String) (js : List String) (ps : Dict (List String))
    → contains a js ≡ true
    → alias_owner a ps ≡ some o
    → contains o (owners_of js ps) ≡ true
unfolding contains owners_of
contains-owners_of a o [] ps h e = absurd (cc)
contains-owners_of a o (j ∷ js) ps h e = elim (Bool-cases (str_eq j a)) [
  | inl same ↦
      let e' : alias_owner j ps ≡ some o =
        ap (λ x. alias_owner x ps) ((str_eq_iff j a).0 same) ∙ e in
      let self : str_eq o o ≡ true = (str_eq_iff o o).1 refl in ground (arith, e', self)
  | inr other ↦ let rest = contains-owners_of a o js ps (ground arith) e in ground arith
]

module _ (ps : Dict (List String)) (u : IsDict ps) (v : AreOwned ps) (i : String) (js : List String)
    (mine : (a o : String) → contains a js ≡ true → alias_owner a ps ≡ some o → o ≡ i) where
  abbrev merged : List String
  merged = sorted_set (or_else (lookup i ps) [] ++ js)

  -- An alias of the merged list has no other owner.
  merged-owner :
      (a j : String) (ys : List String)
      → contains a merged ≡ true
      → lookup j ps ≡ some ys
      → contains a ys ≡ true
      → j ≡ i
  unfolding contains
  merged-owner a j ys h l c =
      let parts =
        sym (contains-append a (or_else (lookup i ps) []) js)
        ∙ sym (contains-sorted_set a (or_else (lookup i ps) [] ++ js))
        ∙ h in
      elim (Bool-cases (contains a js)) [
        | inl new ↦ elim (Option-cases (alias_owner a ps)) [
          | inl e ↦ absurd (ground (arith, owner_none a j ps ys e l))
          | inr (o, e) ↦
              let (xs, lo, co) = owner_some a o ps u e in v a j o ys xs l lo c co ∙ mine a o new e
        ]
        | inr old ↦ elim (Option-cases (lookup i ps)) [
          | inl e ↦ absurd (ground arith)
          | inr (xs, e) ↦ v a j i ys xs l e c (ground arith)
        ]
      ]

  owned-AreOwned : AreOwned (insert i merged ps)
  owned-AreOwned a j k xs ys l m c d = elim (Bool-cases (str_eq i j)) [
    | inl sj ↦ elim (Bool-cases (str_eq i k)) [
      | inl sk ↦ sym ((str_eq_iff i j).0 sj) ∙ (str_eq_iff i k).0 sk
      | inr ok ↦
          let e : merged ≡ xs = ground (arith, lookup-insert i j merged ps) in
          sym ((str_eq_iff i j).0 sj)
          ∙ sym (
              merged-owner a k ys (ap (contains a) e ∙ c)
                (ground (arith, lookup-insert i k merged ps)) d)
    ]
    | inr oj ↦ elim (Bool-cases (str_eq i k)) [
      | inl sk ↦
          let e : merged ≡ ys = ground (arith, lookup-insert i k merged ps) in
          merged-owner a j xs (ap (contains a) e ∙ d) (ground (arith, lookup-insert i j merged ps))
            c
          ∙ (str_eq_iff i k).0 sk
      | inr ok ↦
          v a j k xs ys (ground (arith, lookup-insert i j merged ps))
            (ground (arith, lookup-insert i k merged ps)) c d
    ]
  ]

-- What a resolved identity has done: it has the aliases, they are its own, and no participant and no
-- alias was lost.
pub record IsResolved (ps : Dict (List String)) (js : List String) (r : Resolved) : Type 0 where
  pub dict : IsDict r.participants
  pub owned : AreOwned r.participants
  pub known :
      (xs : List String) × (lookup r.participant_id r.participants ≡ some xs)
      × ((a : String) → contains a js ≡ true → contains a xs ≡ true)
  pub kept :
      (i : String) (xs : List String)
      → lookup i ps ≡ some xs
      → (ys : List String) × (lookup i r.participants ≡ some ys)
        × ((a : String) → contains a xs ≡ true → contains a ys ≡ true)

module _ (ps : Dict (List String)) (u : IsDict ps) (v : AreOwned ps) (n : ℕ) (i : String)
    (js : List String)
    (mine : (a o : String) → contains a js ≡ true → alias_owner a ps ≡ some o → o ≡ i) where
  merged-right : (a : String) → contains a js ≡ true → contains a (merged ps u v i js mine) ≡ true
  merged-right a h = ground (
    arith,
    contains-sorted_set a (or_else (lookup i ps) [] ++ js),
    contains-append a (or_else (lookup i ps) []) js,
  )

  merged-left :
      (xs : List String) (a : String)
      → lookup i ps ≡ some xs
      → contains a xs ≡ true
      → contains a (merged ps u v i js mine) ≡ true
  merged-left xs a e h = ground (
    arith,
    contains-sorted_set a (or_else (lookup i ps) [] ++ js),
    contains-append a (or_else (lookup i ps) []) js,
  )

  owned-IsResolved : IsResolved ps js (owned ps i js n)
  owned-IsResolved =
      let l = merged ps u v i js mine in
      record {
        dict = insert-IsDict i l ps u;
        owned = owned-AreOwned ps u v i js mine;
        known = (l, lookup-insert_self i l ps, merged-right);
        kept = λ j xs e. elim (Bool-cases (str_eq i j)) [
          | inl same ↦ (
            l,
            ground (arith, lookup-insert i j l ps),
            λ a h. merged-left xs a (ap (λ x. lookup x ps) ((str_eq_iff i j).0 same) ∙ e) h,
          )
          | inr other ↦ (xs, ground (arith, lookup-insert i j l ps), λ a h. h)
        ];
      }

resolve_jids-IsResolved :
    (uuid : ℕ → String) (n : ℕ) (ps : Dict (List String)) (js os : List String) (r : Resolved)
    → IsDict ps
    → AreOwned ps
    → owners_of js ps ≡ os
    → resolve_jids uuid n ps js os ≡ some r
    → IsResolved ps js r
unfolding resolve_jids contains
resolve_jids-IsResolved uuid n ps js [] r u v e h = subst (IsResolved ps js) (some-inj h) (
    owned-IsResolved ps u v (n + 1) (fresh_id uuid "participant" n) js
      (λ a o c d. absurd (ground (arith, contains-owners_of a o js ps c d, ap (contains o) e))))
resolve_jids-IsResolved uuid n ps js (p ∷ []) r u v e h = subst (IsResolved ps js) (some-inj h) (
    owned-IsResolved ps u v n p js (λ a o c d.
      sym
        ((str_eq_iff p o).0 (ground (arith, contains-owners_of a o js ps c d, ap (contains o) e)))))
resolve_jids-IsResolved uuid n ps js (p ∷ q ∷ os) r u v e h = absurd (cc)

pub resolve_identity_of-IsResolved :
    (uuid : ℕ → String) (n : ℕ) (ps : Dict (List String)) (aliases : List String) (r : Resolved)
    → IsDict ps
    → AreOwned ps
    → resolve_identity_of uuid n ps aliases ≡ some r
    → (js : List String) × (jids aliases ≡ some js) × (has_items js ≡ true) × IsResolved ps js r
unfolding resolve_identity_of
resolve_identity_of-IsResolved uuid n ps aliases r u v h =
    let (js, e, h1) = >>=-eq-some (jids aliases) _ h in
    let (w, some_item, h2) = >>=-eq-some (guard (has_items js)) _ h1 in
    (
      js,
      e,
      guard-eq-some (has_items js) w some_item,
      resolve_jids-IsResolved uuid n ps js (owners_of js ps) r u v refl h2,
    )
