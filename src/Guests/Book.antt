-- ===== src/Guests/Book.antt =====
-- The participants and the memberships of a guest group, together.
use home_assistant_whatsapp.Base.{
  ap, Bool-cases, List, String, arith, contains, inl, inr, some, str_eq, sym, true, ◌∙◌, ◌≡◌,
}
use home_assistant_whatsapp.Dict.{Dict, IsDict, insert, insert-IsDict, lookup, lookup-insert}
use home_assistant_whatsapp.Guests.Aliases.{AreOwned}
use home_assistant_whatsapp.Guests.Members.{OneActive, insert-OneActive}
use home_assistant_whatsapp.Guests.Types.{GuestData, Membership, is_active}

-- The participant of each membership is there.
abbrev pub AreKnown : Dict (List String) → Dict Membership → Type 0
AreKnown ps ms =
    (k : String) (m : Membership)
    → lookup k ms ≡ some m
    → (xs : List String) × (lookup m.participant_id ps ≡ some xs)

pub record IsBook (ps : Dict (List String)) (ms : Dict Membership) : Type 0 where
  pub participants_dict : IsDict ps
  pub memberships_dict : IsDict ms
  pub owned : AreOwned ps
  pub single : OneActive ms
  pub known : AreKnown ps ms

-- Well-formed data of a guest group.
abbrev pub IsGuestData : GuestData → Type 0
IsGuestData d = IsBook d.participants d.memberships

-- No participant and no alias of the first is missing in the second.
abbrev pub Extends : Dict (List String) → Dict (List String) → Type 0
Extends ps qs =
    (i : String) (xs : List String)
    → lookup i ps ≡ some xs
    → (ys : List String) × (lookup i qs ≡ some ys)
      × ((a : String) → contains a xs ≡ true → contains a ys ≡ true)

pub insert-AreKnown :
    (ps : Dict (List String)) (k : String) (m : Membership) (ms : Dict Membership)
    (xs : List String)
    → AreKnown ps ms
    → lookup m.participant_id ps ≡ some xs
    → AreKnown ps (insert k m ms)
insert-AreKnown ps k m ms xs v e j n l = elim (Bool-cases (str_eq k j)) [
  | inl same ↦
      let e' : m ≡ n = ground (arith, lookup-insert k j m ms) in
      (xs, sym (ap (λ x. lookup x.participant_id ps) e') ∙ e)
  | inr other ↦ v j n (ground (arith, lookup-insert k j m ms))
]

pub insert-IsBook :
    (ps : Dict (List String)) (k : String) (m : Membership) (ms : Dict Membership)
    (xs : List String)
    → IsBook ps ms
    → lookup m.participant_id ps ≡ some xs
    → ((l : String) (n : Membership)
        → lookup l ms ≡ some n
        → is_active n.status ≡ true
        → n.participant_id ≡ m.participant_id
        → l ≡ k)
    → IsBook ps (insert k m ms)
insert-IsBook ps k m ms xs v e alone = record {
  participants_dict = v.participants_dict;
  memberships_dict = insert-IsDict k m ms v.memberships_dict;
  owned = v.owned;
  single = insert-OneActive k m ms v.single alone;
  known = insert-AreKnown ps k m ms xs v.known e;
}

pub extend-IsBook :
    (ps qs : Dict (List String)) (ms : Dict Membership)
    → IsBook ps ms
    → IsDict qs
    → AreOwned qs
    → Extends ps qs
    → IsBook qs ms
extend-IsBook ps qs ms v u o x = record {
  participants_dict = u;
  memberships_dict = v.memberships_dict;
  owned = o;
  single = v.single;
  known =
      λ k m e. let (xs, f) = v.known k m e in let (ys, g, h) = x m.participant_id xs f in (ys, g);
}
