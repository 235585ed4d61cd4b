-- ===== src/Commands/Tests.antt =====
-- Runs of the commands on small inputs, and the theorems at concrete inputs.
use home_assistant_whatsapp.Base.{
  List, Option, String, [], all, contains, false, is_distinct, refl, some, true, ◌∷◌, ◌≡◌, ◌⊎◌,
}
use home_assistant_whatsapp.Base.Int.{pos}
use home_assistant_whatsapp.Commands.Declared.{stored_definition-definition_of}
use home_assistant_whatsapp.Commands.Definition.{
  CommandDefinition, contacts_of, definition_of, definition_storage, from_keys, is_name, name_of,
  names_of, stored_definition, text_values,
}
use home_assistant_whatsapp.Commands.Gate.{IsAllowed, publication-IsAllowed}
use home_assistant_whatsapp.Commands.Loaded.{find_command_lem, stored_commands-IsUnambiguous}
use home_assistant_whatsapp.Commands.Publish.{
  Command, Publication, argument_of, argument_text, copied, guest_fields, invocation, invoked,
  is_contact_allowed, is_direct_message, is_guest_allowed, publication, publication_of,
  request_value, rstrip_blanks, span_name,
}
use home_assistant_whatsapp.Commands.Registry.{
  Change, CommandRegistry, all_names, are_disjoint, changed, find_command, load_commands,
  new_command_registry, overlaps, register_command, register_definition, save_commands,
  stored_commands, unregister_command,
}
use home_assistant_whatsapp.Commands.Unambiguous.{
  IsRegistered, IsUnambiguous, IsUndone, register_command_lem,
}
use home_assistant_whatsapp.Dict.{Dict, IsDict, insert, lookup}
use home_assistant_whatsapp.Json.{
  Value, bool, dict, from_dict, from_list, get, int, is_text, is_version, list, str, to_dict,
  to_list,
}
use home_assistant_whatsapp.Store.{saved}
use home_assistant_whatsapp.Text.{
  all_chars, has_char, is_ascii, is_space, lower, lower_char, lstrip, rstrip, strip,
}

program : Unit {0}
unfolding stored_definition definition_storage definition_of name_of names_of contacts_of from_keys
    is_name is_ascii lower lower_char strip lstrip rstrip is_space all_chars is_distinct contains
    get lookup insert to_list from_list to_dict from_dict text_values all overlaps are_disjoint
    register_command register_definition save_commands unregister_command find_command publication
    publication_of invoked invocation argument_text argument_of span_name rstrip_blanks
    is_direct_message is_contact_allowed is_guest_allowed is_text has_char request_value
    guest_fields copied stored_commands load_commands is_version
program = tt

abbrev lights : CommandDefinition
lights = record {
  name = "lights";
  aliases = "lamp" ∷ [];
  contact_ids = "c1" ∷ [];
  allow_current_guests = false;
}

lights_declared :
    definition_of
      (str " LIGHTS ")
      (list (from_list (str "lamp" ∷ [])))
      (list (from_list (str "c1" ∷ [])))
      (bool false)
    ≡ some lights
unfolding program
lights_declared = refl

stored_definition-definition_of_example :
    stored_definition (definition_storage lights) ≡ some lights
stored_definition-definition_of_example =
    stored_definition-definition_of (str " LIGHTS ") (list (from_list (str "lamp" ∷ [])))
      (list (from_list (str "c1" ∷ []))) (bool false) lights lights_declared

abbrev empty_registry : CommandRegistry
empty_registry = record new_command_registry { available = true }

abbrev lit_registry : CommandRegistry
lit_registry = record empty_registry { commands = ("lights", lights) ∷ [] }

abbrev registration : Change
registration =
    register_command empty_registry (str " Lights ") (str "lamp" ∷ []) (str "c1" ∷ []) (bool false)
      saved

registration_lem : (registration.registry ≡ lit_registry) × (registration.result ≡ changed)
unfolding program
registration_lem = (refl, refl)

register_command_lem_example :
    IsUndone empty_registry registration
    ⊎ ((d : CommandDefinition) × (definition_of
            (str " Lights ")
            (list (from_list (str "lamp" ∷ [])))
            (list (from_list (str "c1" ∷ [])))
            (bool false)
          ≡ some d)
        × IsRegistered empty_registry d saved registration)
register_command_lem_example =
    register_command_lem empty_registry (str " Lights ") (str "lamp" ∷ []) (str "c1" ∷ [])
      (bool false) saved

abbrev raw : Value
raw = dict (
    from_dict (
      ("version", int (pos 1))
      ∷ ("commands", list (from_list (dict (from_dict (definition_storage lights)) ∷ [])))
      ∷ []))

raw_read : stored_commands raw ≡ some lit_registry.commands
unfolding program
raw_read = refl

stored_commands-IsUnambiguous_example : IsUnambiguous lit_registry.commands
stored_commands-IsUnambiguous_example =
    stored_commands-IsUnambiguous raw lit_registry.commands raw_read

lit-IsDict : IsDict lit_registry.commands
unfolding program
lit-IsDict = (refl, tt)

lights_held : lookup "lights" lit_registry.commands ≡ some lights
unfolding program
lights_held = refl

lamp_named : contains "lamp" (all_names lights) ≡ true
unfolding program
lamp_named = refl

find_command_lem_example : find_command "lamp" lit_registry.commands ≡ some lights
find_command_lem_example =
    find_command_lem "lamp" "lights" lit_registry.commands lights lit-IsDict
      (stored_commands-IsUnambiguous raw lit_registry.commands raw_read) lights_held lamp_named

-- One argument, whatever the text.
abbrev one_argument : String → Option (List String)
one_argument s = some (s ∷ [])

abbrev event : Dict Value
event =
    ("config_entry_id", str "entry")
    ∷ ("type", str "message.received")
    ∷ ("conversation_type", str "direct")
    ∷ ("event_id", str "e1")
    ∷ ("conversation_id", str "d1")
    ∷ ("occurred_at", str "now")
    ∷ (
      "message",
      dict (from_dict (("kind", str "text") ∷ ("text", str "/LAMP  on ") ∷ ("id", str "m1") ∷ [])),
    )
    ∷ ("sender", dict (from_dict (("contact_id", str "c1") ∷ [])))
    ∷ []

abbrev sender : Dict Value
sender = ("contact_id", str "c1") ∷ []

abbrev command : Command
command = record { name = "lights"; invoked_as = "lamp"; arguments = "on" ∷ [] }

abbrev lamp_on : Publication
lamp_on = record {
  definition = lights;
  command = command;
  event = request_value "entry" event sender "e1" "d1" "now" "m1" command false;
}

lamp_on_lem : publication one_argument "entry" lit_registry event ≡ some lamp_on
unfolding program
lamp_on_lem = refl

publication-IsAllowed_example : IsAllowed one_argument "entry" lit_registry event lamp_on
publication-IsAllowed_example =
    publication-IsAllowed one_argument "entry" lit_registry event lamp_on lamp_on_lem
