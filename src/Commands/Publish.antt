-- ===== src/Commands/Publish.antt =====
-- `publish_from_message`: an inbound message that requests a registered command.
use home_assistant_whatsapp.Base.{
  Bool, List, Option, String, [], all, code, contains, count, false, guard, if◌then◌else◌, is_some,
  leb, length, none, not, some, str_eq, true, ℕ, ◌&&◌, ◌++◌, ◌+◌, ◌==◌, ◌>>=◌, ◌>>◌, ◌||◌, ◌∷◌,
}
use home_assistant_whatsapp.Base.Int.{pos}
use home_assistant_whatsapp.Commands.Definition.{
  CommandDefinition, is_name, is_name_char, text_values,
}
use home_assistant_whatsapp.Commands.Registry.{CommandRegistry, find_command}
use home_assistant_whatsapp.Dict.{Dict}
use home_assistant_whatsapp.Json.{
  Value, as_dict, as_str, dict, from_dict, from_list, get, int, is_text, list, str,
}
use home_assistant_whatsapp.Text.{has_char, lower, lower_char}

-- `\s` of an ASCII pattern.
abbrev pub is_ascii_space : ℕ → Bool
is_ascii_space c = c == 0x20 || (leb 0x9 c && leb c 0xd)

-- `text.rstrip(" \t")`
unfoldable pub rstrip_blanks : String → String
rstrip_blanks String.[] = ""
rstrip_blanks (String.◌∷◌ c s) =
    let rest = rstrip_blanks s in
    if str_eq rest "" && (code c == b' ' || code c == 0x9) then "" else String.◌∷◌ c rest

-- The name characters that a text begins with, and the rest.
unfoldable pub span_name : String → String × String
span_name String.[] = ("", "")
span_name (String.◌∷◌ c s) =
    let (n, rest) = span_name s in
    if is_name_char (code (lower_char c)) then (String.◌∷◌ c n, rest) else ("", String.◌∷◌ c s)

-- The argument after a name: `(?:\s+(.+))?\Z`. White space alone leaves its last character to `.+`.
unfoldable pub argument_of : String → Option String
argument_of String.[] = none
argument_of (String.◌∷◌ c String.[]) = some (String.◌∷◌ c String.[])
argument_of (String.◌∷◌ c (String.◌∷◌ d s)) =
    let rest = argument_of (String.◌∷◌ d s) in
    if is_ascii_space (code c) then rest else some (String.◌∷◌ c (String.◌∷◌ d s))

unfoldable pub argument_text : String → Option String
unfolding argument_of
argument_text String.[] = some ""
argument_text (String.◌∷◌ c s) = if is_ascii_space (code c) then argument_of s else none

-- `_INVOCATION.fullmatch(s)`, with its name in lower case and its argument or "".
unfoldable pub invocation : String → Option (String × String)
invocation String.[] = none
invocation (String.◌∷◌ c s) = do
  let (name, rest) = span_name s
  guard (code c == b'/' && is_name (lower name))
  argument ← argument_text rest
  some (lower name, argument)

abbrev pub has_line_break : String → Bool
has_line_break s = has_char 0xa s || has_char 0xd s

-- The event's envelope: this entry's message, in a direct conversation.
unfoldable pub is_direct_message : String → Dict Value → Bool
is_direct_message entry_id event =
    is_text "config_entry_id" entry_id event
    && is_text "type" "message.received" event
    && is_text "conversation_type" "direct" event

-- The invocation in a text message.
unfoldable pub invoked : Dict Value → Option (String × String)
invoked message = do
  text ← as_str (get "text" message)
  guard (is_text "kind" "text" message && leb (count text) 256 && not (has_line_break text))
  invocation (rstrip_blanks text)

-- `sender.get("contact_id") in definition.contact_ids`
unfoldable pub is_contact_allowed : CommandDefinition → Dict Value → Bool
is_contact_allowed d sender = elim (as_str (get "contact_id" sender)) [
  | none ↦ false
  | some s ↦ contains s d.contact_ids
]

-- An active guest, known as a participant, where guests are allowed.
unfoldable pub is_guest_allowed : CommandDefinition → Dict Value → Dict Value → Bool
is_guest_allowed d event sender =
    d.allow_current_guests
    && elim (as_dict (get "membership" event)) [
      | none ↦ false
      | some m ↦ is_text "kind" "guest" m && is_text "status" "active" m
    ]
    && is_some (as_str (get "participant_id" sender))

abbrev pub is_argument : String → Bool
is_argument s = leb (count s) 80

-- A field that is copied where it is an object.
unfoldable pub copied : String → Dict Value → Dict Value
copied k event = elim (as_dict (get k event)) [ none ↦ [] | some d ↦ (k, dict (from_dict d)) ∷ [] ]

-- The membership and the group of a guest's request.
unfoldable pub guest_fields : Bool → Dict Value → Dict Value
unfolding copied
guest_fields true event = copied "membership" event ++ copied "group" event
guest_fields false event = []

pub record Command : Type 0 where
  pub name : String
  pub invoked_as : String
  pub arguments : List String

-- The event that is fired.
unfoldable pub request_value :
    String
    → Dict Value
    → Dict Value
    → String
    → String
    → String
    → String
    → Command
    → Bool
    → Dict Value
unfolding guest_fields
request_value entry_id event sender event_id conversation_id occurred_at message_id c guest =
    (("schema_version", int (pos 1))
      ∷ ("event_id", str event_id)
      ∷ ("type", str "command.requested")
      ∷ ("config_entry_id", str entry_id)
      ∷ ("conversation_id", str conversation_id)
      ∷ ("conversation_type", str "direct")
      ∷ ("occurred_at", str occurred_at)
      ∷ ("sender", dict (from_dict sender))
      ∷ ("source_message_id", str message_id)
      ∷ (
        "command",
        dict (
            from_dict (
              ("name", str c.name)
              ∷ ("invoked_as", str c.invoked_as)
              ∷ ("arguments", list (from_list (text_values c.arguments)))
              ∷ [])),
      )
      ∷ [])
    ++ guest_fields guest event

-- A request for a command, and the event that announces it.
pub record Publication : Type 0 where
  pub definition : CommandDefinition
  pub command : Command
  pub event : Dict Value

-- What follows once the command is known. `shlex_split` is the standard library's; `none` is its
-- `ValueError`.
unfoldable pub publication_of :
    (String → Option (List String))
    → String
    → Dict Value
    → Dict Value
    → Dict Value
    → CommandDefinition
    → String
    → String
    → Option Publication
unfolding request_value
publication_of shlex_split entry_id event message sender d invoked_as argument = do
  guard (is_contact_allowed d sender || is_guest_allowed d event sender)
  arguments ← shlex_split argument
  guard (leb (length arguments) 8 && all is_argument arguments)
  event_id ← as_str (get "event_id" event)
  conversation_id ← as_str (get "conversation_id" event)
  occurred_at ← as_str (get "occurred_at" event)
  message_id ← as_str (get "id" message)
  let c : Command = record { name = d.name; invoked_as = invoked_as; arguments = arguments }
  some (record {
    definition = d;
    command = c;
    event =
        request_value entry_id event sender event_id conversation_id occurred_at message_id c
          (is_guest_allowed d event sender);
  })

-- `publish_from_message`, up to the event that it fires.
unfoldable pub publication :
    (String → Option (List String)) → String → CommandRegistry → Dict Value → Option Publication
publication shlex_split entry_id g event = do
  guard (g.available && is_direct_message entry_id event)
  message ← as_dict (get "message" event)
  sender ← as_dict (get "sender" event)
  (name, argument) ← invoked message
  d ← find_command name g.commands
  publication_of shlex_split entry_id event message sender d name argument

-- `publish_from_message`: the registry, and the event that was fired.
unfoldable pub publish :
    (String → Option (List String))
    → String
    → CommandRegistry
    → Dict Value
    → CommandRegistry × Option (Dict Value)
publish shlex_split entry_id g event = elim (publication shlex_split entry_id g event) [
  | none ↦ (g, none)
  | some p ↦ (record g { requested_count = g.requested_count + 1 }, some p.event)
]
