-- ===== src/Guests/Identity.antt =====
-- WhatsApp identifiers of a guest group: `_jid` and `_opaque`.
use home_assistant_whatsapp.Base.{
  Bool, Option, String, code, concat, count, false, guard, if◌then◌else◌, leb, none, some, str_eq,
  true, ℕ, ◌&&◌, ◌==◌, ◌>>=◌, ◌>>◌, ◌||◌,
}
use home_assistant_whatsapp.Text.{all_chars, fold_char, is_lower_hex, lower_char, span_digits}

-- What a character matches in a pattern under `re.I`, where it matches an ASCII letter.
unfoldable pub fold_pattern : ℕ → ℕ
fold_pattern c = if c == 0x130 || c == 0x131 then b'i' else fold_char c

-- `re.fullmatch(word, s, re.I)`, for a word in lower case.
unfoldable pub matches_word : String → String → Bool
unfolding fold_pattern
matches_word String.[] String.[] = true
matches_word (String.◌∷◌ c s) (String.◌∷◌ d w) = fold_pattern (code c) == code d && matches_word s w
matches_word _ _ = false

-- `s.lower()`, for a text that such a pattern matched.
unfoldable pub lower_text : String → String
lower_text String.[] = ""
lower_text (String.◌∷◌ c s) =
    let rest = lower_text s in
    if code c == 0x130 then concat "i̇" rest else String.◌∷◌ (lower_char c) rest

-- The domain of a participant, in its canonical form; `none` is a `ValueError`, here and below.
unfoldable pub jid_domain : String → Option String
jid_domain s =
    if matches_word s "@s.whatsapp.net"
    then some (if str_eq (lower_text s) "@s.whatsapp.net" then "@c.us" else lower_text s)
    else if matches_word s "@c.us" || matches_word s "@lid"
    then some (lower_text s)
    else none

abbrev pub is_number : String → Bool
is_number s = leb 1 (count s) && leb (count s) 20

-- `_jid(value)`
unfoldable pub jid : String → Option String
unfolding jid_domain
jid value = do
  let (number, rest) = span_digits value
  guard (is_number number)
  domain ← jid_domain rest
  some (concat number domain)

unfoldable pub group_domain : String → Option String
group_domain s = if matches_word s "@g.us" then some (lower_text s) else none

-- What follows the first number of a group: an optional second one, and the domain.
unfoldable pub group_rest : String → Option String
group_rest String.[] = none
group_rest (String.◌∷◌ c s) =
    let (number, rest) = span_digits s in
    let second = do
      guard (is_number number)
      domain ← group_domain rest
      some (concat "-" (concat number domain))
    in if code c == b'-' then second else group_domain (String.◌∷◌ c s)

-- `_jid(value, group=True)`
unfoldable pub group_jid : String → Option String
unfolding group_rest group_domain
group_jid value = do
  let (number, rest) = span_digits value
  guard (is_number number)
  rest' ← group_rest rest
  some (concat number rest')

-- What stands after a prefix.
unfoldable pub without_prefix : String → String → Option String
without_prefix String.[] s = some s
without_prefix (String.◌∷◌ c p) String.[] = none
without_prefix (String.◌∷◌ c p) (String.◌∷◌ d s) =
    let rest = without_prefix p s in if code c == code d then rest else none

-- `_opaque`
unfoldable pub is_opaque : String → String → Bool
is_opaque prefix value = elim (without_prefix (concat prefix "_") value) [
  | none ↦ false
  | some s ↦ count s == 32 && all_chars is_lower_hex s
]

-- `_id`, for the n-th `uuid4().hex` of the process.
abbrev pub fresh_id : (ℕ → String) → String → ℕ → String
fresh_id uuid prefix n = concat prefix (concat "_" (uuid n))
