-- ===== src/Commands/RoundTrip.antt =====
-- `as_storage` of a declaration, followed by the reading of `async_start`.
use home_assistant_whatsapp.Base.{
  Char, List, String, [], all, ap, arith, code, contains, false, is_distinct, length, ltb, not,
  refl, some, str_eq_iff, suc, true, ◌||◌, ◌∷◌, ◌≡◌, ◌≤◌,
}
use home_assistant_whatsapp.Commands.Definition.{
  CommandDefinition, contacts_of, definition_of, definition_storage, from_keys, is_contact,
  is_empty, is_name, is_name_char, max_aliases, max_contacts, name_of, names_of, stored_definition,
  text_values,
}
use home_assistant_whatsapp.Commands.Registry.{all_names}
use home_assistant_whatsapp.Dict.{lookup}
use home_assistant_whatsapp.Json.{get, str, to_list-from_list}
use home_assistant_whatsapp.Text.{
  all_chars, is_ascii, is_space, lower, lower_char, lstrip, rstrip, strip,
}

-- A declaration as `_definition` makes them.
pub record IsCommand (d : CommandDefinition) : Type 0 where
  pub named : is_name d.name ≡ true
  pub aliased : all is_name d.aliases ≡ true
  pub few_aliases : length d.aliases ≤ max_aliases
  pub distinct : is_distinct (all_names d) ≡ true
  pub contacts : all is_contact d.contact_ids ≡ true
  pub few_contacts : length d.contact_ids ≤ max_contacts
  pub once : is_distinct d.contact_ids ≡ true
  pub positive : (not (is_empty d.contact_ids) || d.allow_current_guests) ≡ true

name_char-plain :
    (c : Char)
    → is_name_char (code c) ≡ true
    → (is_space (code c) ≡ false) × (lower_char c ≡ c) × (ltb (code c) 128 ≡ true)
unfolding is_space lower_char
name_char-plain c h = ground arith

rstrip_plain : (s : String) → all_chars is_name_char s ≡ true → rstrip s ≡ s
unfolding all_chars rstrip
rstrip_plain String.[] h = refl
rstrip_plain (String.◌∷◌ c s) h =
    let (space, _, _) = name_char-plain c (ground arith) in
    rw (rstrip_plain s (ground arith), space) (ground arith)

lower_plain : (s : String) → all_chars is_name_char s ≡ true → lower s ≡ s
unfolding all_chars lower
lower_plain String.[] h = refl
lower_plain (String.◌∷◌ c s) h =
    let (_, same, _) = name_char-plain c (ground arith) in
    rw (lower_plain s (ground arith), same) refl

ascii_plain : (s : String) → all_chars is_name_char s ≡ true → all_chars (λ c. ltb c 128) s ≡ true
unfolding all_chars
ascii_plain String.[] h = refl
ascii_plain (String.◌∷◌ c s) h =
    let (_, _, small) = name_char-plain c (ground arith) in
    rw (ascii_plain s (ground arith), small) refl

name_chars : (s : String) → is_name s ≡ true → all_chars is_name_char s ≡ true
unfolding is_name all_chars
name_chars String.[] h = absurd (cc)
name_chars (String.◌∷◌ c s) h = ground arith

lstrip_plain : (s : String) → all_chars is_name_char s ≡ true → lstrip s ≡ s
unfolding all_chars lstrip
lstrip_plain String.[] h = refl
lstrip_plain (String.◌∷◌ c s) h =
    let (space, _, _) = name_char-plain c (ground arith) in rw space refl

-- A name is its own normal form.
name_of_lem : (s : String) → is_name s ≡ true → name_of (str s) ≡ some s
unfolding name_of strip is_ascii
name_of_lem s h =
    let chars = name_chars s h in
    rw (lstrip_plain s chars, rstrip_plain s chars, lower_plain s chars, ascii_plain s chars, h)
      refl

names_of-text_values :
    (ss : List String) → all is_name ss ≡ true → names_of (text_values ss) ≡ some ss
unfolding names_of text_values all
names_of-text_values [] h = refl
names_of-text_values (s ∷ ss) h =
    rw (name_of_lem s (ground arith), names_of-text_values ss (ground arith)) refl

contacts_of-text_values :
    (ss : List String) → all is_contact ss ≡ true → contacts_of (text_values ss) ≡ some ss
unfolding contacts_of text_values all
contacts_of-text_values [] h = refl
contacts_of-text_values (s ∷ ss) h =
    let ok : is_contact s ≡ true = ground arith in
    rw (ok, contacts_of-text_values ss (ground arith)) refl

length-text_values : (ss : List String) → length (text_values ss) ≡ length ss
unfolding text_values
length-text_values [] = refl
length-text_values (s ∷ ss) = ap (λ n. suc n) (length-text_values ss)

-- Texts none of which has been seen.
abbrev AreNew : List String → List String → Type 0
AreNew seen [] = Unit
AreNew seen (s ∷ ss) = (contains s seen ≡ false) × AreNew seen ss

AreNew-cons :
    (x : String) (seen ss : List String)
    → contains x ss ≡ false
    → AreNew seen ss
    → AreNew (x ∷ seen) ss
unfolding contains
AreNew-cons x seen [] h v = tt
AreNew-cons x seen (s ∷ ss) h v =
    (ground (arith, str_eq_iff x s, str_eq_iff s x), AreNew-cons x seen ss (ground arith) v.1)

AreNew-none : (ss : List String) → AreNew [] ss
unfolding contains
AreNew-none [] = tt
AreNew-none (s ∷ ss) = (refl, AreNew-none ss)

from_keys_lem :
    (seen ss : List String) → AreNew seen ss → is_distinct ss ≡ true → from_keys seen ss ≡ ss
unfolding from_keys is_distinct
from_keys_lem seen [] v h = refl
from_keys_lem seen (s ∷ ss) v h =
    rw (v.0, from_keys_lem (s ∷ seen) ss (AreNew-cons s seen ss (ground arith) v.1) (ground arith))
      refl

module _ (d : CommandDefinition) (v : IsCommand d) where
  -- A valid declaration that was stored is read back as it was.
  pub stored_definition-definition_storage : stored_definition (definition_storage d) ≡ some d
  unfolding stored_definition definition_storage definition_of get lookup
  stored_definition-definition_storage =
      rw
        (
          name_of_lem d.name v.named,
          to_list-from_list (text_values d.aliases),
          to_list-from_list (text_values d.contact_ids),
          length-text_values d.aliases,
          length-text_values d.contact_ids,
          names_of-text_values d.aliases v.aliased,
          contacts_of-text_values d.contact_ids v.contacts,
          v.distinct,
          from_keys_lem [] d.contact_ids (AreNew-none d.contact_ids) v.once,
          v.positive,
        )
        (ground (arith, v.few_aliases, v.few_contacts))
