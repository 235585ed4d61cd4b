-- ===== src/Helpers.antt =====
-- Recipients and stored configuration: custom_components/waha_whatsapp/helpers.py and migration.py.
use home_assistant_whatsapp.Base.{
  Bool, Option, String, [], code, concat, contains, guard, if◌then◌else◌, is_none, some, str_eq, ℕ,
  ◌&&◌, ◌==◌, ◌>>=◌, ◌>>◌, ◌||◌, ◌∷◌,
}
use home_assistant_whatsapp.Dict.{Dict, insert, lookup}
use home_assistant_whatsapp.Json.{Value, str}
use home_assistant_whatsapp.Text.{is_digits, is_space, span_digits, strip}

-- What `re.sub(r"[\s()+.\-]", "", s)` takes out.
abbrev pub is_separator : ℕ → Bool
is_separator c = is_space c || c == b'(' || c == b')' || c == b'+' || c == b'.' || c == b'-'

unfoldable pub without_separators : String → String
without_separators String.[] = ""
without_separators (String.◌∷◌ c s) =
    let rest = without_separators s in if is_separator (code c) then rest else String.◌∷◌ c rest

-- `normalize_recipient`; `none` is a `ValueError`.
unfoldable pub normalize_recipient : String → Option String
unfolding without_separators
normalize_recipient recipient = do
  let value = without_separators (strip recipient)
  guard (is_digits 7 15 value)
  some value

-- `recipient_chat_id`
unfoldable pub recipient_chat_id : String → Option String
recipient_chat_id recipient = do value ← normalize_recipient recipient; some (concat value "@c.us")

-- `_CHAT_ID_RE.fullmatch(s)`
unfoldable pub is_chat_id : String → Bool
is_chat_id s =
    let (number, domain) = span_digits s in is_digits 7 15 number && str_eq domain "@c.us"

-- `normalize_chat_id`
unfoldable pub normalize_chat_id : String → Option String
normalize_chat_id value =
    if is_chat_id (strip value) then some (strip value) else recipient_chat_id (strip value)

-- `d.setdefault(k, v)`
unfoldable pub set_missing : String → Value → Dict Value → Dict Value
set_missing k v d = if is_none (lookup k d) then insert k v d else d

-- `with_webhook_credentials`
unfoldable pub with_webhook_credentials : Dict Value → String → String → Dict Value
unfolding set_missing
with_webhook_credentials d webhook_id webhook_secret =
    set_missing "webhook_secret" (str webhook_secret) (set_missing "webhook_id" (str webhook_id) d)

-- `without_obsolete_group_config`
unfoldable pub without_obsolete_group_config : Dict Value → Dict Value
without_obsolete_group_config [] = []
without_obsolete_group_config ((k, v) ∷ d) =
    let rest = without_obsolete_group_config d in
    if contains k ("contact_role" ∷ "group_adults" ∷ []) then rest else (k, v) ∷ rest
