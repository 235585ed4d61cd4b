-- ===== src/Commands/Gate.antt =====
-- Who may request a command, and what a request may carry.
use mathlib.Core.Path.{subst}
use home_assistant_whatsapp.Base.{
  Bool, Bool-cases, [], Char, count, code, false, inl, inr, not, ◌∷◌, ◌==◌, guard-eq-some,
  >>=-eq-some, List, Option, String, all, ap, arith, guard, leb, length, refl, some, some-inj, sym,
  true, ◌&&◌, ◌||◌, ◌∙◌, ◌≡◌, ◌≤◌,
}
use home_assistant_whatsapp.Commands.Definition.{
  CommandDefinition, is_name, is_name_char, text_values,
}
use home_assistant_whatsapp.Commands.Publish.{
  Command, Publication, argument_text, has_line_break, invocation, request_value, rstrip_blanks,
  span_name, invoked, is_argument, is_contact_allowed, is_direct_message, is_guest_allowed,
  publication, publication_of,
}
use home_assistant_whatsapp.Commands.Registry.{CommandRegistry, find_command}
use home_assistant_whatsapp.Dict.{Dict, lookup}
use home_assistant_whatsapp.Json.{
  Value, as_dict, as_str, dict, from_dict, from_list, get, is_text, list, str,
}
use home_assistant_whatsapp.Text.{lower, lower_char}

-- The event that announces a request names the command, not the alias that was used for it, and
-- carries the arguments, the sender and the ids of the message.
pub record IsAnnounced (entry_id : String) (event message sender : Dict Value) (p : Publication)
    : Type 0 where
  pub kind : get "type" p.event ≡ str "command.requested"
  pub entry : get "config_entry_id" p.event ≡ str entry_id
  pub sent_by : get "sender" p.event ≡ dict (from_dict sender)
  pub event_id : String
  pub of_event : as_str (get "event_id" event) ≡ some event_id
  pub same_event : get "event_id" p.event ≡ str event_id
  pub message_id : String
  pub of_message : as_str (get "id" message) ≡ some message_id
  pub source : get "source_message_id" p.event ≡ str message_id
  pub requested :
      get "command" p.event
      ≡ dict (
          from_dict (
            ("name", str p.definition.name)
            ∷ ("invoked_as", str p.command.invoked_as)
            ∷ ("arguments", list (from_list (text_values p.command.arguments)))
            ∷ []))

-- A text and another after it.
abbrev pub joined : String → String → String
joined String.[] t = t
joined (String.◌∷◌ c s) t = String.◌∷◌ c (joined s t)

-- The text of a message is, up to blanks at its end, a slash, a name and the rest, where the name in
-- lower case is the one invoked, and the rest gives an argument text.
pub record IsInvocation (message : Dict Value) (invoked_as argument : String) : Type 0 where
  pub kind : is_text "kind" "text" message ≡ true
  pub text : String
  pub said : as_str (get "text" message) ≡ some text
  pub short : count text ≤ 256
  pub one_line : has_line_break text ≡ false
  pub slash : Char
  pub is_slash : code slash ≡ b'/'
  pub name : String
  pub rest : String
  pub written : rstrip_blanks text ≡ String.◌∷◌ slash (joined name rest)
  pub called : lower name ≡ invoked_as
  pub well_named : is_name invoked_as ≡ true
  pub argued : argument_text rest ≡ some argument

-- What a publication has passed.
pub record IsAllowed (shlex_split : String → Option (List String)) (entry_id : String)
    (g : CommandRegistry) (event : Dict Value) (p : Publication) : Type 0 where
  pub available : g.available ≡ true
  pub direct : is_direct_message entry_id event ≡ true
  pub message : Dict Value
  pub carried : as_dict (get "message" event) ≡ some message
  pub sender : Dict Value
  pub sent_by : as_dict (get "sender" event) ≡ some sender
  pub argument : String
  pub invocation : IsInvocation message p.command.invoked_as argument
  pub divided : shlex_split argument ≡ some p.command.arguments
  pub known : find_command p.command.invoked_as g.commands ≡ some p.definition
  pub named : p.command.name ≡ p.definition.name
  pub permitted :
      (is_contact_allowed p.definition sender || is_guest_allowed p.definition event sender) ≡ true
  pub few : length p.command.arguments ≤ 8
  pub short : all is_argument p.command.arguments ≡ true
  pub announced : IsAnnounced entry_id event message sender p

-- What the last part of the code has checked.
record IsPermitted (shlex_split : String → Option (List String)) (entry_id : String)
    (event message sender : Dict Value) (d : CommandDefinition) (invoked_as argument : String)
    (p : Publication) : Type 0 where
  of : p.definition ≡ d
  invoked_by : p.command.invoked_as ≡ invoked_as
  divided : shlex_split argument ≡ some p.command.arguments
  named : p.command.name ≡ d.name
  permitted : (is_contact_allowed d sender || is_guest_allowed d event sender) ≡ true
  few : length p.command.arguments ≤ 8
  short : all is_argument p.command.arguments ≡ true
  announced : IsAnnounced entry_id event message sender p

-- A text is its name and the rest.
joined-span_name : (s : String) → joined (span_name s).0 (span_name s).1 ≡ s
unfolding span_name
joined-span_name String.[] = refl
joined-span_name (String.◌∷◌ c s) = elim (Bool-cases (is_name_char (code (lower_char c)))) [
  | inl e ↦ rw e (ap (String.◌∷◌ c) (joined-span_name s))
  | inr e ↦ rw e refl
]

invocation-lem :
    (s name argument : String)
    → invocation s ≡ some (name, argument)
    → (c : Char) × (n : String) × (rest : String) × (code c ≡ b'/')
      × (s ≡ String.◌∷◌ c (joined n rest))
      × (lower n ≡ name)
      × (is_name name ≡ true)
      × (argument_text rest ≡ some argument)
unfolding invocation
invocation-lem String.[] name argument h = absurd (cc)
invocation-lem (String.◌∷◌ c s) name argument h =
    let found = span_name s in
    let (w, ok, h1) = >>=-eq-some (guard (code c == b'/' && is_name (lower found.0))) _ h in
    let (text, argued, h2) = >>=-eq-some (argument_text found.1) _ h1 in
    let good = guard-eq-some _ w ok in
    let same = some-inj h2 in
    (
      c,
      found.0,
      found.1,
      ground arith,
      ap (String.◌∷◌ c) (sym (joined-span_name s)),
      ap (λ x. x.0) same,
      ap (λ x. is_name x.0) (sym same) ∙ ground arith,
      argued ∙ ap (λ x. some x.1) same,
    )

invoked-IsInvocation :
    (message : Dict Value) (name argument : String)
    → invoked message ≡ some (name, argument)
    → IsInvocation message name argument
unfolding invoked
invoked-IsInvocation message name argument h =
    let (text, said, h1) = >>=-eq-some (as_str (get "text" message)) _ h in
    let (u, ok, h2) =
      >>=-eq-some
        (guard (is_text "kind" "text" message && leb (count text) 256 && not (has_line_break text)))
        _ h1 in
    let good = guard-eq-some _ u ok in
    let (c, n, rest, is_slash, written, called, well, argued) =
      invocation-lem (rstrip_blanks text) name argument h2 in
    record {
      kind = ground arith;
      text = text;
      said = said;
      short = ground arith;
      one_line = ground arith;
      slash = c;
      is_slash = is_slash;
      name = n;
      rest = rest;
      written = written;
      called = called;
      well_named = well;
      argued = argued;
    }

module _ (shlex_split : String → Option (List String)) (entry_id : String) where
  request_value-IsAnnounced :
      (event message sender : Dict Value) (event_id conversation_id occurred_at message_id : String)
      (d : CommandDefinition) (c : Command) (guest : Bool)
      → as_str (get "event_id" event) ≡ some event_id
      → as_str (get "id" message) ≡ some message_id
      → c.name ≡ d.name
      → IsAnnounced entry_id event message sender (record {
        definition = d;
        command = c;
        event =
            request_value entry_id event sender event_id conversation_id occurred_at message_id c
              guest;
      })
  unfolding request_value get lookup
  request_value-IsAnnounced event message sender event_id conversation_id occurred_at message_id d c
        guest of_event of_message same =
      record {
        kind = refl;
        entry = refl;
        sent_by = refl;
        event_id = event_id;
        of_event = of_event;
        same_event = refl;
        message_id = message_id;
        of_message = of_message;
        source = refl;
        requested =
            ap
              (λ n. dict (
                from_dict (
                  ("name", str n)
                  ∷ ("invoked_as", str c.invoked_as)
                  ∷ ("arguments", list (from_list (text_values c.arguments)))
                  ∷ [])))
              same;
      }

  publication_of-IsPermitted :
      (event message sender : Dict Value) (d : CommandDefinition) (invoked_as argument : String)
      (p : Publication)
      → publication_of shlex_split entry_id event message sender d invoked_as argument ≡ some p
      → IsPermitted shlex_split entry_id event message sender d invoked_as argument p
  unfolding publication_of
  publication_of-IsPermitted event message sender d invoked_as argument p h =
      let (u, ok, h1) =
        >>=-eq-some (guard (is_contact_allowed d sender || is_guest_allowed d event sender)) _ h in
      let (args, divided, h2) = >>=-eq-some (shlex_split argument) _ h1 in
      let (w, size, h3) = >>=-eq-some (guard (leb (length args) 8 && all is_argument args)) _ h2 in
      let (event_id, of_event, h4) = >>=-eq-some (as_str (get "event_id" event)) _ h3 in
      let (conversation_id, _, h5) = >>=-eq-some (as_str (get "conversation_id" event)) _ h4 in
      let (occurred_at, _, h6) = >>=-eq-some (as_str (get "occurred_at" event)) _ h5 in
      let (message_id, of_message, h7) = >>=-eq-some (as_str (get "id" message)) _ h6 in
      let good = guard-eq-some _ u ok in
      let bounds = guard-eq-some _ w size in
      subst (IsPermitted shlex_split entry_id event message sender d invoked_as argument)
        (some-inj h7)
        (record {
          of = refl;
          invoked_by = refl;
          divided = divided;
          named = refl;
          permitted = good;
          few = ground arith;
          short = ground arith;
          announced =
              request_value-IsAnnounced event message sender event_id conversation_id occurred_at
                message_id d (record { name = d.name; invoked_as = invoked_as; arguments = args })
                (is_guest_allowed d event sender) of_event of_message refl;
        })

  -- A message is published as a request only where the registry is available, the message is direct
  -- and of this entry, its text is a slash with a name and an argument text, the name in lower case
  -- finds a registered command, and its sender is an allowed contact of that command or an active
  -- guest where the command admits guests. The argument text splits into the at most 8 arguments of
  -- at most 80 characters. The event fired names the command found, the name that it was invoked as
  -- and the arguments, and carries the sender and the ids of the message and of its event.
  pub publication-IsAllowed :
      (g : CommandRegistry) (event : Dict Value) (p : Publication)
      → publication shlex_split entry_id g event ≡ some p
      → IsAllowed shlex_split entry_id g event p
  unfolding publication
  publication-IsAllowed g event p h =
      let (u, ok, h1) = >>=-eq-some (guard (g.available && is_direct_message entry_id event)) _ h in
      let (message, carried, h2) = >>=-eq-some (as_dict (get "message" event)) _ h1 in
      let (sender, by, h3) = >>=-eq-some (as_dict (get "sender" event)) _ h2 in
      let (call, called, h4) = >>=-eq-some (invoked message) _ h3 in
      let (d, found, h5) = >>=-eq-some (find_command call.0 g.commands) _ h4 in
      let v = publication_of-IsPermitted event message sender d call.0 call.1 p h5 in
      let open_now = guard-eq-some _ u ok in
      record {
        available = ground arith;
        direct = ground arith;
        message = message;
        carried = carried;
        sender = sender;
        sent_by = by;
        argument = call.1;
        invocation =
            subst (λ n. IsInvocation message n call.1) (sym v.invoked_by)
              (invoked-IsInvocation message call.0 call.1 called);
        divided = v.divided;
        known = ap (λ n. find_command n g.commands) v.invoked_by ∙ found ∙ ap some (sym v.of);
        named = v.named ∙ ap (λ x. x.name) (sym v.of);
        permitted =
            subst (λ x. (is_contact_allowed x sender || is_guest_allowed x event sender) ≡ true)
              (sym v.of) v.permitted;
        few = v.few;
        short = v.short;
        announced = v.announced;
      }
