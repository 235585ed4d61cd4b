-- ===== src/Commands/Definition.antt =====
-- Command declarations: `_name`, `_definition` and `CommandDefinition`.
use home_assistant_whatsapp.Base.{
  Bool, List, Option, String, [], code, contains, count, false, guard, if◌then◌else◌, is_distinct,
  leb, length, not, some, str_eq, true, ℕ, ◌&&◌, ◌==◌, ◌>>=◌, ◌>>◌, ◌||◌, ◌∷◌,
}
use home_assistant_whatsapp.Correlated.Claim.{canonical}
use home_assistant_whatsapp.Dict.{Dict}
use home_assistant_whatsapp.Json.{Value, as_bool, as_list, as_str, bool, from_list, get, list, str}
use home_assistant_whatsapp.Text.{all_chars, is_ascii, is_digit, lower, strip}

abbrev pub max_commands : ℕ
max_commands = 32

abbrev pub max_aliases : ℕ
max_aliases = 5

abbrev pub max_contacts : ℕ
max_contacts = 64

pub record CommandDefinition : Type 0 where
  pub name : String
  pub aliases : List String
  pub contact_ids : List String
  pub allow_current_guests : Bool

abbrev pub is_letter : ℕ → Bool
is_letter c = leb b'a' c && leb c b'z'

abbrev pub is_name_char : ℕ → Bool
is_name_char c = is_letter c || is_digit c || c == b'_'

-- `_NAME.fullmatch(s)`
unfoldable pub is_name : String → Bool
is_name String.[] = false
is_name (String.◌∷◌ c s) = is_letter (code c) && all_chars is_name_char s && leb (count s) 31

-- `_name`; `none` is a `CommandRegistryError`, here and below.
unfoldable pub name_of : Value → Option String
name_of v = do s ← as_str v; guard (is_ascii s && is_name (lower (strip s))); some (lower (strip s))

unfoldable pub names_of : List Value → Option (List String)
names_of [] = some []
names_of (v ∷ vs) = do n ← name_of v; ns ← names_of vs; some (n ∷ ns)

abbrev pub is_contact : String → Bool
is_contact s = not (str_eq s "") && leb (count s) 128

unfoldable pub contacts_of : List Value → Option (List String)
contacts_of [] = some []
contacts_of (v ∷ vs) = do s ← as_str v; guard (is_contact s); ss ← contacts_of vs; some (s ∷ ss)

-- `tuple(dict.fromkeys(items))`: the first occurrence of every item.
unfoldable pub from_keys : List String → List String → List String
from_keys seen [] = []
from_keys seen (s ∷ ss) =
    let rest = from_keys (s ∷ seen) ss in if contains s seen then rest else s ∷ rest

abbrev pub is_empty : List String → Bool
is_empty [] = true
is_empty (s ∷ ss) = false

-- `_definition`
unfoldable pub definition_of : Value → Value → Value → Value → Option CommandDefinition
definition_of name aliases contact_ids allow_current_guests = do
  canonical ← name_of name
  alias_values ← as_list aliases
  guard (leb (length alias_values) max_aliases)
  names ← names_of alias_values
  guard (is_distinct (canonical ∷ names))
  contact_values ← as_list contact_ids
  guard (leb (length contact_values) max_contacts)
  contacts ← contacts_of contact_values
  allow ← as_bool allow_current_guests
  guard (not (is_empty (from_keys [] contacts)) || allow)
  some (record {
    name = canonical;
    aliases = names;
    contact_ids = from_keys [] contacts;
    allow_current_guests = allow;
  })

unfoldable pub text_values : List String → List Value
text_values [] = []
text_values (s ∷ ss) = str s ∷ text_values ss

-- `CommandDefinition.as_storage`
unfoldable pub definition_storage : CommandDefinition → Dict Value
definition_storage d =
    ("name", str d.name)
    ∷ ("aliases", list (from_list (text_values d.aliases)))
    ∷ ("contact_ids", list (from_list (text_values d.contact_ids)))
    ∷ ("allow_current_guests", bool d.allow_current_guests)
    ∷ []

-- The four fields that a stored declaration is read from.
unfoldable pub stored_definition : Dict Value → Option CommandDefinition
stored_definition d =
    definition_of (get "name" d) (get "aliases" d) (get "contact_ids" d)
      (get "allow_current_guests" d)
