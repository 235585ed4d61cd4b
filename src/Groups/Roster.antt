-- ===== src/Groups/Roster.antt =====
-- The aliases that a reviewed roster gives.
use mathlib.Core.Path.{subst}
use home_assistant_whatsapp.Base.{
  >>=-eq-some, Bool-cases, List, Option, Option-cases, String, [], all, ap, arith, false, guard,
  inl, inr, none, not, or_else, refl, some, some-inj, str_eq, str_eq_iff, sym, ◌||◌, ◌∙◌, ◌∷◌, ◌≡◌,
  ◌⊎◌,
}
use home_assistant_whatsapp.Dict.{
  Dict, insert, lookup, lookup-insert, lookup-insert_ne, lookup-insert_self,
}
use home_assistant_whatsapp.Groups.Review.{
  GroupMember, Review, ReviewError, accepted, member_names, put_alias, put_names, refused,
  review_member, review_roster,
}
use home_assistant_whatsapp.Guests.Routes.{is_phone}

put_alias-some :
    (a i : String) (al more : Dict String)
    → put_alias a i al ≡ some more
    → (lookup a al ≡ none) × (insert a i al ≡ more)
unfolding put_alias
put_alias-some a i al more h = elim (Option-cases (lookup a al)) [
  | inl e ↦ (e, ground arith)
  | inr (j, e) ↦ absurd (ground arith)
]

-- What the names of one member add to the aliases.
record Adds (i : String) (p : Option String) (al more : Dict String) : Type 0 where
  kept : (a j : String) → lookup a al ≡ some j → lookup a more ≡ some j
  own : lookup i more ≡ some (or_else p i)
  number : (q : String) → p ≡ some q → lookup q more ≡ some q
  origin :
      (a j : String)
      → lookup a more ≡ some j
      → (lookup a al ≡ some j) ⊎ ((or_else p i ≡ j) × ((i ≡ a) ⊎ (p ≡ some a)))

put-kept :
    (a i b j : String) (al more : Dict String)
    → put_alias a i al ≡ some more
    → lookup b al ≡ some j
    → lookup b more ≡ some j
put-kept a i b j al more h l =
    let (free, same) = put_alias-some a i al more h in
    ap (lookup b) (sym same)
    ∙ lookup-insert_ne a b i al (λ e. absurd (ground (arith, ap (λ x. lookup x al) e)))
    ∙ l

put-own :
    (a i : String) (al more : Dict String) → put_alias a i al ≡ some more → lookup a more ≡ some i
put-own a i al more h =
    let (free, same) = put_alias-some a i al more h in
    ap (lookup a) (sym same) ∙ lookup-insert_self a i al

put-origin :
    (a i b j : String) (al more : Dict String)
    → put_alias a i al ≡ some more
    → lookup b more ≡ some j
    → (lookup b al ≡ some j) ⊎ ((a ≡ b) × (i ≡ j))
put-origin a i b j al more h l =
    let (free, same) = put_alias-some a i al more h in
    let l' : lookup b (insert a i al) ≡ some j = ap (lookup b) same ∙ l in
    elim (Bool-cases (str_eq a b)) [
      | inl e ↦ inr ((str_eq_iff a b).0 e, ground (arith, lookup-insert a b i al))
      | inr e ↦ inl (ground (arith, lookup-insert a b i al))
    ]

put_names-Adds :
    (i : String) (p : Option String) (al more : Dict String)
    → put_names i p al ≡ some more
    → Adds i p al more
unfolding put_names
put_names-Adds i none al more h = record {
  kept = λ a j l. put-kept i i a j al more h l;
  own = put-own i i al more h;
  number = λ q e. absurd (cc);
  origin = λ a j l. elim (put-origin i i a j al more h l) [
    | inl before ↦ inl before
    | inr (e, f) ↦ inr (f, inl e)
  ];
}
put_names-Adds i (some p) al more h =
    let (w, e1, h1) = >>=-eq-some (guard (not (is_phone i) || str_eq i p)) _ h in
    let (mid, e2, h2) = >>=-eq-some (put_alias i p al) _ h1 in
    elim (Bool-cases (str_eq i p)) [
      | inl same ↦
          let is : mid ≡ more = ground arith in
          let e : put_alias i p al ≡ some more = e2 ∙ ap some is in
          let ip = (str_eq_iff i p).0 same in
          record {
            kept = λ a j l. put-kept i p a j al more e l;
            own = put-own i p al more e;
            number = λ q f.
                subst (λ x. lookup x more ≡ some x) (some-inj f)
                  (subst (λ x. lookup x more ≡ some p) ip (put-own i p al more e));
            origin = λ a j l. elim (put-origin i p a j al more e l) [
              | inl before ↦ inl before
              | inr (f, g) ↦ inr (g, inl f)
            ];
          }
      | inr other ↦
          let e : put_alias p p mid ≡ some more = ground arith in
          record {
            kept = λ a j l. put-kept p p a j mid more e (put-kept i p a j al mid e2 l);
            own = put-kept p p i p mid more e (put-own i p al mid e2);
            number =
                λ q f. subst (λ x. lookup x more ≡ some x) (some-inj f) (put-own p p mid more e);
            origin = λ a j l. elim (put-origin p p a j mid more e l) [
              | inl between ↦ elim (put-origin i p a j al mid e2 between) [
                | inl before ↦ inl before
                | inr (f, g) ↦ inr (g, inl f)
              ]
              | inr (f, g) ↦ inr (g, inr (ap some f))
            ];
          }
    ]

abbrev pub IsMember : GroupMember → List GroupMember → Type 0
IsMember m [] = ⊥
IsMember m (n ∷ ns) = (m ≡ n) ⊎ IsMember m ns

-- A current member whose names both lead to the telephone number, or else to the id.
abbrev pub IsKnown : Dict String → GroupMember → Type 0
IsKnown al m =
    (i : String) × (p : Option String) × (member_names m ≡ some (i, p))
    × (lookup i al ≡ some (or_else p i))
    × ((q : String) → p ≡ some q → lookup q al ≡ some q)

-- An alias is a name of some current member, and leads to the identity of that member.
abbrev pub IsAliasOf : String → String → GroupMember → Type 0
IsAliasOf a j m =
    (str_eq m.role "left" ≡ false)
    × ((i : String) × (p : Option String) × (member_names m ≡ some (i, p))
        × (or_else p i ≡ j)
        × ((i ≡ a) ⊎ (p ≡ some a)))

-- One turn of the loop.
member-step :
    (al more : Dict String) (m : GroupMember)
    → review_member al m ≡ accepted more
    → ((a j : String) → lookup a al ≡ some j → lookup a more ≡ some j)
      × (str_eq m.role "left" ≡ false → IsKnown more m)
      × ((a j : String) → lookup a more ≡ some j → (lookup a al ≡ some j) ⊎ IsAliasOf a j m)
unfolding review_member
member-step al more m h = elim (Bool-cases (str_eq m.role "left")) [
  | inl e ↦
      let is : al ≡ more = ground arith in
      (
        (λ a j l. ap (lookup a) (sym is) ∙ l),
        (λ f. absurd (ground arith)),
        (λ a j l. inl (ap (lookup a) is ∙ l)),
      )
  | inr e ↦ elim (Option-cases (member_names m)) [
    | inl f ↦ absurd (ground arith)
    | inr ((i, p), f) ↦ elim (Option-cases (put_names i p al)) [
      | inl g ↦ absurd (ground arith)
      | inr (next_al, g) ↦
          let is : next_al ≡ more = ground arith in
          let adds = put_names-Adds i p al more (g ∙ ap some is) in
          (
            adds.kept,
            (λ x. (i, p, f, adds.own, adds.number)),
            (λ a j l. elim (adds.origin a j l) [
              | inl before ↦ inl before
              | inr (x, y) ↦ inr (e, (i, p, f, x, y))
            ]),
          )
    ]
  ]
]

grow-IsKnown :
    (al more : Dict String) (m : GroupMember)
    → ((a j : String) → lookup a al ≡ some j → lookup a more ≡ some j)
    → IsKnown al m
    → IsKnown more m
grow-IsKnown al more m g (i, p, f, x, y) = (i, p, f, g i (or_else p i) x, λ q e. g q q (y q e))

pub Review-cases {ℓ} :
    {A : Type ℓ} (r : Review A)
    → ((e : ReviewError) × (r ≡ refused e)) ⊎ ((a : A) × (r ≡ accepted a))
Review-cases (refused e) = inl (e, refl)
Review-cases (accepted a) = inr (a, refl)

roster-loop :
    (al aliases : Dict String) (roster : List GroupMember)
    → review_roster al roster ≡ accepted aliases
    → ((a j : String) → lookup a al ≡ some j → lookup a aliases ≡ some j)
      × ((m : GroupMember) → IsMember m roster → str_eq m.role "left" ≡ false → IsKnown aliases m)
      × ((a j : String)
          → lookup a aliases ≡ some j
          → (lookup a al ≡ some j) ⊎ ((m : GroupMember) × IsMember m roster × IsAliasOf a j m))
unfolding review_roster
roster-loop al aliases [] h =
    let is : al ≡ aliases = ground arith in
    (
      (λ a j l. ap (lookup a) (sym is) ∙ l),
      (λ m k. absurd k),
      (λ a j l. inl (ap (lookup a) is ∙ l)),
    )
roster-loop al aliases (m ∷ ms) h = elim (Review-cases (review_member al m)) [
  | inl (e, f) ↦ absurd (ground arith)
  | inr (more, f) ↦
      let (kept, known, origin) = member-step al more m f in
      let (later, all, back) = roster-loop more aliases ms (ground arith) in
      (
        (λ a j l. later a j (kept a j l)),
        (λ n k e. elim k [
          | inl same ↦ subst (IsKnown aliases) (sym same) (
              grow-IsKnown more aliases m later
                (known (ap (λ x. str_eq x.role "left") (sym same) ∙ e)))
          | inr rest ↦ all n rest e
        ]),
        (λ a j l. elim (back a j l) [
          | inr (n, k, x) ↦ inr (n, inr k, x)
          | inl between ↦ elim (origin a j between) [
            | inl before ↦ inl before
            | inr x ↦ inr (m, inl refl, x)
          ]
        ]),
      )
]

-- A roster that is reviewed gives each current member one identity, the telephone number or else the
-- id, under both names; and every alias is a name of a current member, with that member's identity.
pub review_roster_lem :
    (aliases : Dict String) (roster : List GroupMember)
    → review_roster [] roster ≡ accepted aliases
    → ((m : GroupMember) → IsMember m roster → str_eq m.role "left" ≡ false → IsKnown aliases m)
      × ((a j : String)
          → lookup a aliases ≡ some j
          → (m : GroupMember) × IsMember m roster × IsAliasOf a j m)
unfolding lookup
review_roster_lem aliases roster h =
    let (kept, all, back) = roster-loop [] aliases roster h in
    (all, λ a j l. elim (back a j l) [ inl none_yet ↦ absurd (cc) | inr x ↦ x ])
