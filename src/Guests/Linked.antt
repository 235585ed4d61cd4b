-- ===== src/Guests/Linked.antt =====
-- The aliases that `_resolve_identity` brings together: a participant keeps no alias twice, and gets
-- only aliases that its participant or an item of the roster already links.
use mathlib.Core.Path.{subst}
use home_assistant_whatsapp.Base.{
  >>=-eq-some, Bool, Bool-cases, List, Option-cases, String, [], ap, arith, contains,
  contains-append, guard, inl, inr, is_distinct, none, or_else, refl, some, some-inj, str_eq,
  str_eq_iff, sym, true, ℕ, ◌++◌, ◌+◌, ◌≤◌, ◌∙◌, ◌∷◌, ◌≡◌,
}
use home_assistant_whatsapp.Dict.{Dict, IsDict, insert, insert-IsDict, lookup, lookup-insert}
use home_assistant_whatsapp.Guests.Aliases.{owner_some}
use home_assistant_whatsapp.Guests.Identity.{fresh_id}
use home_assistant_whatsapp.Guests.Reconcile.{RosterItem}
use home_assistant_whatsapp.Guests.Roster.{
  Resolved, alias_owner, has_items, jids, owned, owners_of, resolve_identity_of, resolve_jids,
  sorted_set,
}
use home_assistant_whatsapp.Guests.Rows.{IsItem, fresh_id-inj}
use home_assistant_whatsapp.Guests.Sets.{contains-sorted_set, sorted_set-is_distinct}

-- No participant has an alias twice.
abbrev pub AreDistinct : Dict (List String) → Type 0
AreDistinct ps = (i : String) (xs : List String) → lookup i ps ≡ some xs → is_distinct xs ≡ true

-- The participant ids that are given from the n-th `uuid4` on are not in use.
abbrev pub AreFresh : (ℕ → String) → ℕ → Dict (List String) → Type 0
AreFresh uuid n ps = (j : ℕ) → n ≤ j → lookup (fresh_id uuid "participant" j) ps ≡ none

-- A set of aliases has all aliases of a list or none.
abbrev pub Agrees : (String → Bool) → List String → Type 0
Agrees mine xs = (a b : String) → contains a xs ≡ true → contains b xs ≡ true → mine a ≡ mine b

-- A set of aliases has all aliases of a participant or none.
abbrev pub AllAgree : (String → Bool) → Dict (List String) → Type 0
AllAgree mine ps = (i : String) (xs : List String) → lookup i ps ≡ some xs → Agrees mine xs

-- A set of aliases has all canonical aliases of an item of the roster or none.
abbrev pub ItemsAgree : (String → Bool) → List RosterItem → Type 0
ItemsAgree mine items =
    (x : RosterItem) (js : List String) → IsItem x items → jids x.aliases ≡ some js → Agrees mine js

owned-AreDistinct :
    (ps : Dict (List String)) (i : String) (js : List String) (n : ℕ)
    → AreDistinct ps
    → AreDistinct (owned ps i js n).participants
owned-AreDistinct ps i js n v j xs l =
    let merged = sorted_set (or_else (lookup i ps) [] ++ js) in
    elim (Bool-cases (str_eq i j)) [
      | inl same ↦
          let e : merged ≡ xs = ground (arith, lookup-insert i j merged ps) in
          subst (λ ys. is_distinct ys ≡ true) e
            (sorted_set-is_distinct (or_else (lookup i ps) [] ++ js))
      | inr other ↦ v j xs (ground (arith, lookup-insert i j merged ps))
    ]

resolve_jids-AreDistinct :
    (uuid : ℕ → String) (n : ℕ) (ps : Dict (List String)) (js os : List String) (r : Resolved)
    → AreDistinct ps
    → resolve_jids uuid n ps js os ≡ some r
    → AreDistinct r.participants
unfolding resolve_jids
resolve_jids-AreDistinct uuid n ps js [] r v h =
    subst (λ x. AreDistinct x.participants) (some-inj h)
      (owned-AreDistinct ps (fresh_id uuid "participant" n) js (n + 1) v)
resolve_jids-AreDistinct uuid n ps js (o ∷ []) r v h =
    subst (λ x. AreDistinct x.participants) (some-inj h) (owned-AreDistinct ps o js n v)
resolve_jids-AreDistinct uuid n ps js (o ∷ p ∷ os) r v h = absurd (cc)

-- An owner of the aliases owns one of them.
owners_of-alias :
    (o : String) (js : List String) (ps : Dict (List String))
    → contains o (owners_of js ps) ≡ true
    → (a : String) × (contains a js ≡ true) × (alias_owner a ps ≡ some o)
unfolding contains owners_of
owners_of-alias o [] ps h = absurd (cc)
owners_of-alias o (j ∷ js) ps h = elim (Option-cases (alias_owner j ps)) [
  | inl e ↦ let (a, c, f) = owners_of-alias o js ps (ground arith) in (a, ground arith, f)
  | inr (p, e) ↦ elim (Bool-cases (str_eq p o)) [
    | inl same ↦ (j, ground (arith, str_eq_iff j j), e ∙ ap some ((str_eq_iff p o).0 same))
    | inr other ↦ let (a, c, f) = owners_of-alias o js ps (ground arith) in (a, ground arith, f)
  ]
]

module _ (mine : String → Bool) where
  -- Two lists that have an alias in common.
  merged-Agrees :
      (xs js : List String) (c : String)
      → Agrees mine xs
      → Agrees mine js
      → contains c xs ≡ true
      → contains c js ≡ true
      → Agrees mine (sorted_set (xs ++ js))
  merged-Agrees xs js c v w cx cj a b ca cb =
      let to_c : (a : String) → contains a (sorted_set (xs ++ js)) ≡ true → mine a ≡ mine c = λ a h.
        let either = sym (contains-append a xs js) ∙ sym (contains-sorted_set a (xs ++ js)) ∙ h in
        elim (Bool-cases (contains a xs)) [
          | inl e ↦ v a c e cx
          | inr e ↦ w a c (ground arith) cj
        ] in
      to_c a ca ∙ sym (to_c b cb)

  insert-AllAgree :
      (i : String) (ys : List String) (ps : Dict (List String))
      → Agrees mine ys
      → AllAgree mine ps
      → AllAgree mine (insert i ys ps)
  insert-AllAgree i ys ps w v j xs l = elim (Bool-cases (str_eq i j)) [
    | inl same ↦
        let e : ys ≡ xs = ground (arith, lookup-insert i j ys ps) in subst (Agrees mine) e w
    | inr other ↦ v j xs (ground (arith, lookup-insert i j ys ps))
  ]

  set-Agrees : (js : List String) → Agrees mine js → Agrees mine (sorted_set js)
  set-Agrees js w a b ca cb =
      w a b (sym (contains-sorted_set a js) ∙ ca) (sym (contains-sorted_set b js) ∙ cb)

  module _ (uuid : ℕ → String) (distinct : (i j : ℕ) → uuid i ≡ uuid j → i ≡ j) where
    -- What an item's turn keeps of the participants, with the number of the next `uuid4`.
    pub record IsLinked (n : ℕ) (ps : Dict (List String)) : Type 0 where
      pub dict : IsDict ps
      pub fresh : AreFresh uuid n ps
      pub agree : AllAgree mine ps

    new-AreFresh :
        (n : ℕ) (ps : Dict (List String)) (xs : List String)
        → AreFresh uuid n ps
        → AreFresh uuid (n + 1) (insert (fresh_id uuid "participant" n) xs ps)
    new-AreFresh n ps xs v j h =
        let k = fresh_id uuid "participant" n in
        let l = fresh_id uuid "participant" j in
        elim (Bool-cases (str_eq k l)) [
          | inl same ↦
              let e =
                distinct n j (fresh_id-inj uuid "participant" n j ((str_eq_iff k l).0 same)) in
              absurd (omega arith)
          | inr other ↦ ground (arith, lookup-insert k l xs ps, v j (omega arith))
        ]

    old-AreFresh :
        (n : ℕ) (i : String) (ps : Dict (List String)) (xs ys : List String)
        → lookup i ps ≡ some xs
        → AreFresh uuid n ps
        → AreFresh uuid n (insert i ys ps)
    old-AreFresh n i ps xs ys e v j h =
        let l = fresh_id uuid "participant" j in
        ground (arith, lookup-insert i l ys ps, v j h, str_eq_iff i l, ap (λ x. lookup x ps))

    resolve_jids-IsLinked :
        (n : ℕ) (ps : Dict (List String)) (js os : List String) (r : Resolved)
        → IsLinked n ps
        → Agrees mine js
        → owners_of js ps ≡ os
        → resolve_jids uuid n ps js os ≡ some r
        → IsLinked r.next_id r.participants
    unfolding resolve_jids contains
    resolve_jids-IsLinked n ps js [] r v w e h =
        subst (λ x. IsLinked x.next_id x.participants) (some-inj h)
          (let i = fresh_id uuid "participant" n in
            let free = v.fresh n (omega arith) in
            let ys = sorted_set (or_else (lookup i ps) [] ++ js) in
            let same : ys ≡ sorted_set js = ap (λ o. sorted_set (or_else o [] ++ js)) free in
            record {
              dict = insert-IsDict i ys ps v.dict;
              fresh = new-AreFresh n ps ys v.fresh;
              agree =
                  insert-AllAgree i ys ps (subst (Agrees mine) (sym same) (set-Agrees js w))
                    v.agree;
            })
    resolve_jids-IsLinked n ps js (o ∷ []) r v w e h =
        subst (λ x. IsLinked x.next_id x.participants) (some-inj h)
          (let (a, c, f) =
              owners_of-alias o js ps (ap (contains o) e ∙ ground (arith, str_eq_iff o o)) in
            let (xs, l, d) = owner_some a o ps v.dict f in
            let ys = sorted_set (or_else (lookup o ps) [] ++ js) in
            let same : ys ≡ sorted_set (xs ++ js) = ap (λ x. sorted_set (or_else x [] ++ js)) l in
            record {
              dict = insert-IsDict o ys ps v.dict;
              fresh = old-AreFresh n o ps xs ys l v.fresh;
              agree =
                  insert-AllAgree o ys ps
                    (subst (Agrees mine) (sym same) (merged-Agrees xs js a (v.agree o xs l) w d c))
                    v.agree;
            })
    resolve_jids-IsLinked n ps js (o ∷ p ∷ os) r v w e h = absurd (cc)

    pub resolve_identity_of-IsLinked :
        (n : ℕ) (ps : Dict (List String)) (aliases : List String) (r : Resolved)
        → IsLinked n ps
        → ((js : List String) → jids aliases ≡ some js → Agrees mine js)
        → resolve_identity_of uuid n ps aliases ≡ some r
        → IsLinked r.next_id r.participants
    unfolding resolve_identity_of
    resolve_identity_of-IsLinked n ps aliases r v w h =
        let (js, e, h1) = >>=-eq-some (jids aliases) _ h in
        let (u, some_item, h2) = >>=-eq-some (guard (has_items js)) _ h1 in
        resolve_jids-IsLinked n ps js (owners_of js ps) r v (w js e) refl h2

pub resolve_identity_of-AreDistinct :
    (uuid : ℕ → String) (n : ℕ) (ps : Dict (List String)) (aliases : List String) (r : Resolved)
    → AreDistinct ps
    → resolve_identity_of uuid n ps aliases ≡ some r
    → AreDistinct r.participants
unfolding resolve_identity_of
resolve_identity_of-AreDistinct uuid n ps aliases r v h =
    let (js, e, h1) = >>=-eq-some (jids aliases) _ h in
    let (u, some_item, h2) = >>=-eq-some (guard (has_items js)) _ h1 in
    resolve_jids-AreDistinct uuid n ps js (owners_of js ps) r v h2
