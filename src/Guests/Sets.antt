-- ===== src/Guests/Sets.antt =====
-- The set of aliases that `_resolve_identity` writes: what stands in it, and that it repeats nothing.
use home_assistant_whatsapp.Base.{
  Bool-cases, List, String, [], ap, arith, contains, false, inl, inr, is_distinct, refl, str_eq,
  str_eq_iff, true, ◌||◌, ◌∙◌, ◌∷◌, ◌≡◌,
}
use home_assistant_whatsapp.Guests.Roster.{insert_text, sort_texts, sorted_set, text_set}

contains-insert_text :
    (a s : String) (xs : List String)
    → contains a (insert_text s xs) ≡ (str_eq s a || contains a xs)
unfolding contains insert_text
contains-insert_text a s [] = refl
contains-insert_text a s (x ∷ xs) = ground (arith, contains-insert_text a s xs)

contains-sort_texts : (a : String) (xs : List String) → contains a (sort_texts xs) ≡ contains a xs
unfolding contains sort_texts
contains-sort_texts a [] = refl
contains-sort_texts a (x ∷ xs) =
    contains-insert_text a x (sort_texts xs) ∙ ap (λ b. str_eq x a || b) (contains-sort_texts a xs)

contains-text_set : (a : String) (xs : List String) → contains a (text_set xs) ≡ contains a xs
unfolding contains text_set
contains-text_set a [] = refl
contains-text_set a (x ∷ xs) = elim (Bool-cases (str_eq x a)) [
  | inl same ↦
      let e = (str_eq_iff x a).0 same in
      ground (arith, contains-text_set a xs, ap (λ b. contains b (text_set xs)) e)
  | inr other ↦ ground (arith, contains-text_set a xs)
]

pub contains-sorted_set :
    (a : String) (xs : List String) → contains a (sorted_set xs) ≡ contains a xs
unfolding sorted_set
contains-sorted_set a xs = contains-sort_texts a (text_set xs) ∙ contains-text_set a xs

insert_text-is_distinct :
    (s : String) (xs : List String)
    → contains s xs ≡ false
    → is_distinct xs ≡ true
    → is_distinct (insert_text s xs) ≡ true
unfolding contains insert_text is_distinct
insert_text-is_distinct s [] c d = refl
insert_text-is_distinct s (x ∷ xs) c d = ground (
  arith,
  insert_text-is_distinct s xs,
  contains-insert_text x s xs,
  str_eq_iff s x,
  str_eq_iff x s,
)

sort_texts-is_distinct :
    (xs : List String) → is_distinct xs ≡ true → is_distinct (sort_texts xs) ≡ true
unfolding sort_texts is_distinct
sort_texts-is_distinct [] d = refl
sort_texts-is_distinct (x ∷ xs) d =
    insert_text-is_distinct x (sort_texts xs) (contains-sort_texts x xs ∙ ground arith)
      (sort_texts-is_distinct xs (ground arith))

text_set-is_distinct : (xs : List String) → is_distinct (text_set xs) ≡ true
unfolding text_set is_distinct
text_set-is_distinct [] = refl
text_set-is_distinct (x ∷ xs) = ground (arith, text_set-is_distinct xs)

pub sorted_set-is_distinct : (xs : List String) → is_distinct (sorted_set xs) ≡ true
unfolding sorted_set
sorted_set-is_distinct xs = sort_texts-is_distinct (text_set xs) (text_set-is_distinct xs)
