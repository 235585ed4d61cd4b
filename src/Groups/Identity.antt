-- ===== src/Groups/Identity.antt =====
-- `normalize_group_id`, `group_id_matches` and `participant_alias`.
use home_assistant_whatsapp.Base.{
  Bool, Option, String, code, concat, false, guard, if◌then◌else◌, none, some, str_eq, ◌&&◌, ◌==◌,
  ◌>>=◌, ◌>>◌, ◌||◌,
}
use home_assistant_whatsapp.Guests.Identity.{is_number}
use home_assistant_whatsapp.Json.{Value, as_str}
use home_assistant_whatsapp.Text.{has_char, lower, span_digits, strip}

-- What follows the first number of a group.
unfoldable pub is_group_rest : String → Bool
is_group_rest String.[] = false
is_group_rest (String.◌∷◌ c s) =
    let (number, rest) = span_digits s in
    if code c == b'-'
    then is_number number && str_eq rest "@g.us"
    else str_eq (String.◌∷◌ c s) "@g.us"

abbrev pub with_domain : String → String
with_domain s = if has_char b'@' s then s else concat s "@g.us"

-- `normalize_group_id`; `none` is the error `invalid_group_id`.
unfoldable pub normalize_group_id : Value → Option String
normalize_group_id value = do
  s ← as_str value
  let group = with_domain (lower (strip s))
  let (number, rest) = span_digits group
  guard (is_number number)
  guard (is_group_rest rest)
  some group

-- `group_id_matches`
unfoldable pub group_id_matches : Value → String → Bool
group_id_matches value group = elim (normalize_group_id value) [
  | none ↦ false
  | some g ↦ str_eq g group
]

unfoldable pub alias_domain : String → Option String
alias_domain s =
    if str_eq s "@s.whatsapp.net"
    then some "@c.us"
    else if str_eq s "@c.us" || str_eq s "@lid"
    then some s
    else none

-- `participant_alias`
unfoldable pub participant_alias : Value → Option String
participant_alias value = do
  s ← as_str value
  let (number, rest) = span_digits (lower s)
  guard (is_number number)
  domain ← alias_domain rest
  some (concat number domain)
