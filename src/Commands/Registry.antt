-- ===== src/Commands/Registry.antt =====
-- The command registry: `async_start`, `list_commands`, `async_register` and `async_unregister`.
use home_assistant_whatsapp.Base.{
  Bool, List, Option, String, [], contains, false, guard, if◌then◌else◌, is_some, leb, length, none,
  not, some, true, ℕ, ◌&&◌, ◌++◌, ◌>>=◌, ◌>>◌, ◌||◌, ◌∷◌,
}
use home_assistant_whatsapp.Base.Int.{pos}
use home_assistant_whatsapp.Commands.Definition.{
  CommandDefinition, definition_of, definition_storage, max_commands, name_of, stored_definition,
}
use home_assistant_whatsapp.Dict.{Dict, erase, insert, lookup}
use home_assistant_whatsapp.Json.{
  Value, as_dict, as_list, dict, from_dict, from_list, get, int, is_version, list,
}
use home_assistant_whatsapp.Store.{
  LoadResult, SaveResult, load_cancelled, load_failed, loaded, save_cancelled, save_failed, saved,
}
use home_assistant_whatsapp.Text.{text_leb}

pub record CommandRegistry : Type 0 where
  pub commands : Dict CommandDefinition
  pub available : Bool
  pub failed : Bool
  pub requested_count : ℕ

abbrev pub new_command_registry : CommandRegistry
new_command_registry = record {
  commands = [];
  available = false;
  failed = false;
  requested_count = 0;
}

-- `(d.name, *d.aliases)`
abbrev pub all_names : CommandDefinition → List String
all_names d = d.name ∷ d.aliases

-- `used.intersection(names)`, as a test.
unfoldable pub overlaps : List String → List String → Bool
overlaps used [] = false
overlaps used (n ∷ ns) = contains n used || overlaps used ns

-- The loop of `async_register` over its candidate's declarations.
unfoldable pub are_disjoint : List String → Dict CommandDefinition → Bool
are_disjoint used [] = true
are_disjoint used ((k, d) ∷ ds) =
    not (overlaps used (all_names d)) && are_disjoint (all_names d ++ used) ds

-- The loop of `async_start` over the stored declarations; `none` is a failure.
unfoldable pub load_commands :
    List String → Dict CommandDefinition → List Value → Option (Dict CommandDefinition)
load_commands used ds [] = some ds
load_commands used ds (v ∷ vs) = elim (do item ← as_dict v; stored_definition item) [
  | none ↦ none
  | some d ↦
      let rest = load_commands (all_names d ++ used) (insert d.name d ds) vs in
      if overlaps used (all_names d) then none else rest
]

unfoldable pub stored_commands : Value → Option (Dict CommandDefinition)
stored_commands raw = do
  d ← as_dict raw
  guard (is_version (get "version" d))
  items ← as_list (get "commands" d)
  guard (leb (length items) max_commands)
  load_commands [] [] items

abbrev pub with_commands : CommandRegistry → Option (Dict CommandDefinition) → CommandRegistry
with_commands g none = record g { commands = []; available = false; failed = true }
with_commands g (some ds) = record g { commands = ds; available = true; failed = false }

-- `async_start`; a cancelled load changes nothing.
unfoldable pub start_commands : CommandRegistry → LoadResult → CommandRegistry
start_commands g (loaded none) = with_commands g (some [])
start_commands g (loaded (some raw)) = with_commands g (stored_commands raw)
start_commands g load_failed = with_commands g none
start_commands g load_cancelled = g

-- A stable sort by name.
unfoldable pub insert_definition :
    CommandDefinition → List CommandDefinition → List CommandDefinition
insert_definition d [] = d ∷ []
insert_definition d (e ∷ es) =
    if text_leb d.name e.name then d ∷ e ∷ es else e ∷ insert_definition d es

unfoldable pub sort_definitions : Dict CommandDefinition → List CommandDefinition
sort_definitions [] = []
sort_definitions ((k, d) ∷ ds) = insert_definition d (sort_definitions ds)

unfoldable pub definition_values : List CommandDefinition → List Value
definition_values [] = []
definition_values (d ∷ ds) = dict (from_dict (definition_storage d)) ∷ definition_values ds

-- `list_commands`; `none` is its error.
unfoldable pub list_commands : CommandRegistry → Option (List Value)
list_commands g =
    if g.available then some (definition_values (sort_definitions g.commands)) else none

-- What `_save` hands to the store.
unfoldable pub commands_value : Dict CommandDefinition → Value
commands_value ds = dict (
    from_dict (
      ("version", int (pos 1))
      ∷ ("commands", list (from_list (definition_values (sort_definitions ds))))
      ∷ []))

pub data ChangeResult : Type 0 where
  changed invalid cancelled : ChangeResult

-- The registry after a change, what was handed to the store, and the end: a return, a
-- `CommandRegistryError`, or a `CancelledError` out of the store.
pub record Change : Type 0 where
  pub registry : CommandRegistry
  pub written : Option Value
  pub result : ChangeResult

abbrev pub refuse_change : CommandRegistry → Change
refuse_change g = record { registry = g; written = none; result = invalid }

-- `_save` of a candidate, and the assignment after it.
unfoldable pub save_commands : CommandRegistry → Dict CommandDefinition → SaveResult → Change
save_commands g ds saved = record {
  registry = record g { commands = ds };
  written = some (commands_value ds);
  result = changed;
}
save_commands g ds save_failed = record {
  registry = g;
  written = some (commands_value ds);
  result = invalid;
}
save_commands g ds save_cancelled = record {
  registry = g;
  written = some (commands_value ds);
  result = cancelled;
}

-- The part of `async_register` under the lock.
unfoldable pub register_definition : CommandRegistry → CommandDefinition → SaveResult → Change
unfolding save_commands
register_definition g d ack =
    let candidate = insert d.name d g.commands in
    if g.available && are_disjoint [] candidate && leb (length candidate) max_commands
    then save_commands g candidate ack
    else refuse_change g

-- `async_register`
unfoldable pub register_command :
    CommandRegistry → Value → List Value → List Value → Value → SaveResult → Change
unfolding register_definition
register_command g name aliases contact_ids allow ack =
    elim (definition_of name (list (from_list aliases)) (list (from_list contact_ids)) allow) [
      | none ↦ refuse_change g
      | some d ↦ register_definition g d ack
    ]

-- `async_unregister`
unfoldable pub unregister_command : CommandRegistry → Value → SaveResult → Change
unfolding save_commands
unregister_command g name ack = elim (name_of name) [
  | none ↦ refuse_change g
  | some n ↦
      if g.available && is_some (lookup n g.commands)
      then save_commands g (erase n g.commands) ack
      else refuse_change g
]

-- `next(item for item in commands if invoked in (item.name, *item.aliases))`
unfoldable pub find_command : String → Dict CommandDefinition → Option CommandDefinition
find_command n [] = none
find_command n ((k, d) ∷ ds) = if contains n (all_names d) then some d else find_command n ds
