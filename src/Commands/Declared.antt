-- ===== src/Commands/Declared.antt =====
-- The declarations that `_definition` makes, and their stored form.
use mathlib.Core.Path.{subst}
use home_assistant_whatsapp.Base.{
  guard-eq-some, >>=-eq-some, Bool, List, String, [], all, ap, arith, contains, false, guard,
  is_distinct, leb, length, not, refl, some, some-inj, str_eq, str_eq_iff, suc, sym, true, ◌&&◌,
  ◌||◌, ◌∷◌, ◌≡◌, ◌≤◌,
}
use home_assistant_whatsapp.Commands.Definition.{
  CommandDefinition, contacts_of, definition_of, definition_storage, from_keys, is_contact,
  is_empty, is_name, max_aliases, max_contacts, name_of, names_of, stored_definition,
}
use home_assistant_whatsapp.Commands.Registry.{all_names}
use home_assistant_whatsapp.Commands.RoundTrip.{IsCommand, stored_definition-definition_storage}
use home_assistant_whatsapp.Correlated.Claim.{canonical}
use home_assistant_whatsapp.Json.{Value, as_bool, as_list, as_str}
use home_assistant_whatsapp.Text.{is_ascii, lower, strip}

name_of-is_name : (v : Value) (s : String) → name_of v ≡ some s → is_name s ≡ true
unfolding name_of
name_of-is_name v s h =
    let (t, _, h1) = >>=-eq-some (as_str v) _ h in
    let (u, ok, h2) = >>=-eq-some (guard (is_ascii t && is_name (lower (strip t)))) _ h1 in
    let good = guard-eq-some _ u ok in subst (λ x. is_name x ≡ true) (some-inj h2) (ground arith)

names_of-is_name :
    (vs : List Value) (ss : List String)
    → names_of vs ≡ some ss
    → (all is_name ss ≡ true) × (length ss ≡ length vs)
unfolding names_of all
names_of-is_name [] ss h = let e : ss ≡ [] = sym (some-inj h) in rw e (refl, refl)
names_of-is_name (v ∷ vs) ss h =
    let (n, hn, h1) = >>=-eq-some (name_of v) _ h in
    let (ns, hs, h2) = >>=-eq-some (names_of vs) _ h1 in
    let rest = names_of-is_name vs ns hs in
    subst (λ x. (all is_name x ≡ true) × (length x ≡ suc (length vs))) (some-inj h2)
      (rw (name_of-is_name v n hn, rest.0) refl, ap (λ k. suc k) rest.1)

contacts_of-is_contact :
    (vs : List Value) (ss : List String)
    → contacts_of vs ≡ some ss
    → (all is_contact ss ≡ true) × (length ss ≡ length vs)
unfolding contacts_of all
contacts_of-is_contact [] ss h = let e : ss ≡ [] = sym (some-inj h) in rw e (refl, refl)
contacts_of-is_contact (v ∷ vs) ss h =
    let (s, _, h1) = >>=-eq-some (as_str v) _ h in
    let (u, ok, h2) = >>=-eq-some (guard (is_contact s)) _ h1 in
    let (ns, hs, h3) = >>=-eq-some (contacts_of vs) _ h2 in
    let rest = contacts_of-is_contact vs ns hs in
    let good : is_contact s ≡ true = guard-eq-some _ u ok in
    subst (λ x. (all is_contact x ≡ true) × (length x ≡ suc (length vs))) (some-inj h3)
      (rw (good, rest.0) refl, ap (λ k. suc k) rest.1)

contains-from_keys :
    (s : String) (seen ss : List String)
    → contains s seen ≡ true
    → contains s (from_keys seen ss) ≡ false
unfolding from_keys contains
contains-from_keys s seen [] h = refl
contains-from_keys s seen (x ∷ xs) h =
    let rest = contains-from_keys s (x ∷ seen) xs (ground arith) in ground (arith, str_eq_iff x s)

from_keys-is_distinct : (seen ss : List String) → is_distinct (from_keys seen ss) ≡ true
unfolding from_keys is_distinct contains
from_keys-is_distinct seen [] = refl
from_keys-is_distinct seen (x ∷ xs) =
    let rest = from_keys-is_distinct (x ∷ seen) xs in
    let self : str_eq x x ≡ true = (str_eq_iff x x).1 refl in
    let absent = contains-from_keys x (x ∷ seen) xs (ground arith) in ground arith

all-from_keys :
    (p : String → Bool) (seen ss : List String) → all p ss ≡ true → all p (from_keys seen ss) ≡ true
unfolding from_keys all
all-from_keys p seen [] h = refl
all-from_keys p seen (x ∷ xs) h =
    let rest = all-from_keys p (x ∷ seen) xs (ground arith) in ground arith

length-from_keys-le : (seen ss : List String) → length (from_keys seen ss) ≤ length ss
unfolding from_keys
length-from_keys-le seen [] = omega arith
length-from_keys-le seen (x ∷ xs) = ground (arith, length-from_keys-le (x ∷ seen) xs)

definition_of-IsCommand :
    (name aliases contact_ids allow : Value) (d : CommandDefinition)
    → definition_of name aliases contact_ids allow ≡ some d
    → IsCommand d
unfolding definition_of
definition_of-IsCommand name aliases contact_ids allow d h =
    let (canonical, named, h1) = >>=-eq-some (name_of name) _ h in
    let (alias_values, _, h2) = >>=-eq-some (as_list aliases) _ h1 in
    let (u, few, h3) = >>=-eq-some (guard (leb (length alias_values) max_aliases)) _ h2 in
    let (names, aliased, h4) = >>=-eq-some (names_of alias_values) _ h3 in
    let (w, once, h5) = >>=-eq-some (guard (is_distinct (canonical ∷ names))) _ h4 in
    let (contact_values, _, h6) = >>=-eq-some (as_list contact_ids) _ h5 in
    let (x, small, h7) = >>=-eq-some (guard (leb (length contact_values) max_contacts)) _ h6 in
    let (contacts, read, h8) = >>=-eq-some (contacts_of contact_values) _ h7 in
    let (guests, _, h9) = >>=-eq-some (as_bool allow) _ h8 in
    let (y, some_one, h10) =
      >>=-eq-some (guard (not (is_empty (from_keys [] contacts)) || guests)) _ h9 in
    let few' = guard-eq-some _ u few in
    let small' = guard-eq-some _ x small in
    let (all_names, alias_count) = names_of-is_name alias_values names aliased in
    let (all_contacts, contact_count) = contacts_of-is_contact contact_values contacts read in
    let shorter = length-from_keys-le [] contacts in
    subst IsCommand (some-inj h10) (record {
      named = name_of-is_name name canonical named;
      aliased = all_names;
      few_aliases = ground arith;
      distinct = guard-eq-some _ w once;
      contacts = all-from_keys is_contact [] contacts all_contacts;
      few_contacts = ground arith;
      once = from_keys-is_distinct [] contacts;
      positive = guard-eq-some _ y some_one;
    })

-- Every declaration that is accepted is read back from its stored form as it was.
pub stored_definition-definition_of :
    (name aliases contact_ids allow : Value) (d : CommandDefinition)
    → definition_of name aliases contact_ids allow ≡ some d
    → stored_definition (definition_storage d) ≡ some d
stored_definition-definition_of name aliases contact_ids allow d h =
    stored_definition-definition_storage d
      (definition_of-IsCommand name aliases contact_ids allow d h)
