-- ===== src/Polls/Build.antt =====
-- `build_poll_options`: Companion App actions as unique poll options.
use home_assistant_whatsapp.Base.{
  Bool, List, Option, String, [], contains, false, guard, if◌then◌else◌, leb, length, none, not,
  some, str_eq, ◌&&◌, ◌++◌, ◌==◌, ◌>>=◌, ◌>>◌, ◌||◌, ◌∷◌,
}
use home_assistant_whatsapp.Dict.{Dict}
use home_assistant_whatsapp.Json.{Value, as_str, get}
use home_assistant_whatsapp.Polls.Types.{PollOption}
use home_assistant_whatsapp.Text.{strip}

-- The options built so far, with the sets of titles and actions seen. `none` is a
-- `PollValidationError`.
pub record Built : Type 0 where
  pub options : List PollOption
  pub seen_titles : List String
  pub seen_actions : List String

-- `isinstance(v, str) and v.strip()`, with the stripped text.
unfoldable pub stripped : Value → Option String
stripped v = do s ← as_str v; guard (not (str_eq (strip s) "")); some (strip s)

-- `item.get("behavior") == "textInput"`
unfoldable pub is_text_input : Dict Value → Bool
is_text_input item = elim (as_str (get "behavior" item)) [
  | none ↦ false
  | some s ↦ str_eq s "textInput"
]

-- One turn of the loop.
unfoldable pub add_option : Built → Dict Value → Option Built
add_option b item = do
  action ← stripped (get "action" item)
  title ← stripped (get "title" item)
  guard (not (contains action ("REPLY" ∷ "URI" ∷ []) || is_text_input item))
  guard (not (contains action b.seen_actions))
  guard (not (contains title b.seen_titles))
  some (record {
    options = b.options ++ record { title = title; action = some action } ∷ [];
    seen_titles = title ∷ b.seen_titles;
    seen_actions = action ∷ b.seen_actions;
  })

unfoldable pub add_options : Built → List (Dict Value) → Option Built
add_options b [] = some b
add_options b (item ∷ items) = elim (add_option b item) [
  | none ↦ none
  | some b' ↦ add_options b' items
]

-- The option for no action, where there is only one other.
unfoldable pub add_no_action : Built → String → Option (List PollOption)
add_no_action b no_action_title =
    let title = strip no_action_title in
    if length b.options == 1
    then if str_eq title "" || contains title b.seen_titles
      then none
      else some (b.options ++ record { title = title; action = none } ∷ [])
    else some b.options

abbrev pub nothing_built : Built
nothing_built = record { options = []; seen_titles = []; seen_actions = [] }

-- `build_poll_options`
unfoldable pub build_poll_options : List (Dict Value) → String → Option (List PollOption)
build_poll_options actions no_action_title =
    if leb 1 (length actions) && leb (length actions) 12
    then elim (add_options nothing_built actions) [
      | none ↦ none
      | some b ↦ add_no_action b no_action_title
    ]
    else none
