-- ===== src/Guests/Loaded.antt =====
-- What `_validate` accepts.
use mathlib.Core.Path.{subst}
use home_assistant_whatsapp.Base.{
  is_distinct, refl, >>=-eq-some, Bool-cases, List, String, [], ap, arith, contains,
  contains-append, false, guard, guard-eq-some, inl, inr, none, not, some, some-inj, str_eq,
  str_eq_iff, sym, true, ◌++◌, ◌∙◌, ◌∷◌, ◌≡◌,
}
use home_assistant_whatsapp.Dict.{Dict, IsDict, lookup}
use home_assistant_whatsapp.Guests.Aliases.{AreOwned}
use home_assistant_whatsapp.Guests.Identity.{is_opaque, jid}
use home_assistant_whatsapp.Guests.Linked.{AreDistinct}
use home_assistant_whatsapp.Guests.Load.{has_values, stored_aliases, stored_participants}
use home_assistant_whatsapp.Json.{Value, as_dict, as_list, as_str, get}

stored_aliases-new :
    (seen : List String) (vs : List Value) (xs : List String) (a : String)
    → stored_aliases seen vs ≡ some xs
    → contains a xs ≡ true
    → (contains a seen ≡ false) × (jid a ≡ some a)
unfolding stored_aliases contains
stored_aliases-new seen [] xs a h c = absurd (ground (arith, ap (contains a) (some-inj h)))
stored_aliases-new seen (v ∷ vs) xs a h c =
    let (s, e1, h1) = >>=-eq-some (as_str v) _ h in
    let (j, e2, h2) = >>=-eq-some (jid s) _ h1 in
    let (w, e3, h3) = >>=-eq-some (guard (str_eq j s)) _ h2 in
    let (w', e4, h4) = >>=-eq-some (guard (not (contains s seen))) _ h3 in
    let (rest, e5, h5) = >>=-eq-some (stored_aliases (s ∷ seen) vs) _ h4 in
    let same = guard-eq-some (str_eq j s) w e3 in
    let fresh = guard-eq-some (not (contains s seen)) w' e4 in
    let parts : contains a (s ∷ rest) ≡ true = ap (contains a) (some-inj h5) ∙ c in
    elim (Bool-cases (str_eq s a)) [
      | inl here' ↦
          let is = (str_eq_iff s a).0 here' in
          (
            subst (λ x. contains x seen ≡ false) is (ground arith),
            subst (λ x. jid x ≡ some x) is (e2 ∙ ap some ((str_eq_iff j s).0 same)),
          )
      | inr other ↦
          let (f, k) = stored_aliases-new (s ∷ seen) vs rest a e5 (ground arith) in
          (ground arith, k)
    ]

stored_aliases-is_distinct :
    (seen : List String) (vs : List Value) (xs : List String)
    → stored_aliases seen vs ≡ some xs
    → is_distinct xs ≡ true
unfolding stored_aliases is_distinct contains
stored_aliases-is_distinct seen [] xs h = subst (λ ys. is_distinct ys ≡ true) (some-inj h) refl
stored_aliases-is_distinct seen (v ∷ vs) xs h =
    let (s, e1, h1) = >>=-eq-some (as_str v) _ h in
    let (j, e2, h2) = >>=-eq-some (jid s) _ h1 in
    let (w, e3, h3) = >>=-eq-some (guard (str_eq j s)) _ h2 in
    let (w', e4, h4) = >>=-eq-some (guard (not (contains s seen))) _ h3 in
    let (rest, e5, h5) = >>=-eq-some (stored_aliases (s ∷ seen) vs) _ h4 in
    let apart = stored_aliases-is_distinct (s ∷ seen) vs rest e5 in
    subst (λ ys. is_distinct ys ≡ true) (some-inj h5)
      (elim (Bool-cases (contains s rest)) [
        | inl c ↦
            let (f, k) = stored_aliases-new (s ∷ seen) vs rest s e5 c in
            absurd (ground (arith, str_eq_iff s s))
        | inr c ↦ ground arith
      ])

-- The steps of one participant.
participants-cons :
    (seen : List String) (i : String) (v : Value) (vs : Dict Value) (ps : Dict (List String))
    → stored_participants seen ((i, v) ∷ vs) ≡ some ps
    → (xs : List String) × (rest : Dict (List String)) × (us : List Value) × (stored_aliases seen us
        ≡ some xs)
      × (stored_participants (xs ++ seen) vs ≡ some rest)
      × (ps ≡ (i, xs) ∷ rest)
unfolding stored_participants
participants-cons seen i v vs ps h =
    let (w, e1, h1) = >>=-eq-some (guard (is_opaque "participant" i)) _ h in
    let (d, e2, h2) = >>=-eq-some (as_dict v) _ h1 in
    let (us, e3, h3) = >>=-eq-some (as_list (get "aliases" d)) _ h2 in
    let (w', e4, h4) = >>=-eq-some (guard (has_values us)) _ h3 in
    let (xs, e5, h5) = >>=-eq-some (stored_aliases seen us) _ h4 in
    let (rest, e6, h6) = >>=-eq-some (stored_participants (xs ++ seen) vs) _ h5 in
    (xs, rest, us, e5, e6, sym (some-inj h6))

participants-none :
    (seen : List String) (vs : Dict Value) (ps : Dict (List String)) (i : String)
    → stored_participants seen vs ≡ some ps
    → lookup i vs ≡ none
    → lookup i ps ≡ none
unfolding stored_participants lookup
participants-none seen [] ps i h l = ap (lookup i) (sym (some-inj h))
participants-none seen ((j, v) ∷ vs) ps i h l =
    let (xs, rest, us, a, e, same) = participants-cons seen j v vs ps h in
    let tail = participants-none (xs ++ seen) vs rest i e (ground arith) in
    ap (lookup i) same ∙ ground arith

pub participants-IsDict :
    (seen : List String) (vs : Dict Value) (ps : Dict (List String))
    → IsDict vs
    → stored_participants seen vs ≡ some ps
    → IsDict ps
unfolding stored_participants
participants-IsDict seen [] ps u h = subst IsDict (some-inj h) tt
participants-IsDict seen ((j, v) ∷ vs) ps u h =
    let (xs, rest, us, a, e, same) = participants-cons seen j v vs ps h in
    subst IsDict (sym same) (
      participants-none (xs ++ seen) vs rest j e u.0,
      participants-IsDict (xs ++ seen) vs rest u.1 e,
    )

-- An alias is new to what was seen, canonical, and of one participant.
pub participants-new :
    (seen : List String) (vs : Dict Value) (ps : Dict (List String)) (i a : String)
    (xs : List String)
    → stored_participants seen vs ≡ some ps
    → lookup i ps ≡ some xs
    → contains a xs ≡ true
    → (contains a seen ≡ false) × (jid a ≡ some a)
unfolding stored_participants lookup
participants-new seen [] ps i a xs h l c = absurd (ground (arith, ap (lookup i) (some-inj h)))
participants-new seen ((j, v) ∷ vs) ps i a xs h l c =
    let (ys, rest, us, e, f, same) = participants-cons seen j v vs ps h in
    let l' : lookup i ((j, ys) ∷ rest) ≡ some xs = ap (lookup i) (sym same) ∙ l in
    elim (Bool-cases (str_eq j i)) [
      | inl mine ↦
          let is : ys ≡ xs = ground arith in stored_aliases-new seen us xs a (e ∙ ap some is) c
      | inr other ↦
          let (g, k) = participants-new (ys ++ seen) vs rest i a xs f (ground arith) c in
          (ground (arith, contains-append a ys seen), k)
    ]

pub participants-AreOwned :
    (seen : List String) (vs : Dict Value) (ps : Dict (List String))
    → stored_participants seen vs ≡ some ps
    → AreOwned ps
unfolding stored_participants lookup
participants-AreOwned seen [] ps h a i j xs ys l m c d =
    absurd (ground (arith, ap (lookup i) (some-inj h)))
participants-AreOwned seen ((k, v) ∷ vs) ps h a i j xs ys l m c d =
    let (zs, rest, us, e, f, same) = participants-cons seen k v vs ps h in
    let l' : lookup i ((k, zs) ∷ rest) ≡ some xs = ap (lookup i) (sym same) ∙ l in
    let m' : lookup j ((k, zs) ∷ rest) ≡ some ys = ap (lookup j) (sym same) ∙ m in
    let apart : (n : String) (ws : List String)
        → lookup n rest ≡ some ws
        → contains a ws ≡ true
        → contains a zs ≡ true
        → ⊥ =
      λ n ws p q r.
        let (g, t) = participants-new (zs ++ seen) vs rest n a ws f p q in
        ground (arith, contains-append a zs seen) in
    elim (Bool-cases (str_eq k i)) [
      | inl ki ↦
          let is : zs ≡ xs = ground arith in
          elim (Bool-cases (str_eq k j)) [
            | inl kj ↦ sym ((str_eq_iff k i).0 ki) ∙ (str_eq_iff k j).0 kj
            | inr oj ↦ absurd (apart j ys (ground arith) d (ap (contains a) is ∙ c))
          ]
      | inr oi ↦ elim (Bool-cases (str_eq k j)) [
        | inl kj ↦
            let is : zs ≡ ys = ground arith in
            absurd (apart i xs (ground arith) c (ap (contains a) is ∙ d))
        | inr oj ↦
            participants-AreOwned (zs ++ seen) vs rest f a i j xs ys (ground arith) (ground arith) c
              d
      ]
    ]

pub participants-AreDistinct :
    (seen : List String) (vs : Dict Value) (ps : Dict (List String))
    → stored_participants seen vs ≡ some ps
    → AreDistinct ps
unfolding stored_participants lookup
participants-AreDistinct seen [] ps h i xs l = absurd (ground (arith, ap (lookup i) (some-inj h)))
participants-AreDistinct seen ((k, v) ∷ vs) ps h i xs l =
    let (zs, rest, us, e, f, same) = participants-cons seen k v vs ps h in
    let l' : lookup i ((k, zs) ∷ rest) ≡ some xs = ap (lookup i) (sym same) ∙ l in
    elim (Bool-cases (str_eq k i)) [
      | inl mine ↦
          let is : zs ≡ xs = ground arith in stored_aliases-is_distinct seen us xs (e ∙ ap some is)
      | inr other ↦ participants-AreDistinct (zs ++ seen) vs rest f i xs (ground arith)
    ]
