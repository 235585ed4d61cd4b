-- ===== src/Text.antt =====
-- Text read character by character: the string methods and the small regular expressions of the
-- source, as Python defines them.
use Prim.Native.Nat.{Ordering}
use Prim.Native.String.{char_at, compare}
use home_assistant_whatsapp.Base.{
  ◌-◌, ltb, Bool, Char, List, Option, String, [], code, count, false, if◌then◌else◌, leb, none, not,
  some, str_eq, true, ℕ, ◌&&◌, ◌+◌, ◌==◌, ◌||◌, ◌∷◌,
}

-- `re.fullmatch(r"[…]*", s)` for a class of characters.
unfoldable pub all_chars : (ℕ → Bool) → String → Bool
all_chars p String.[] = true
all_chars p (String.◌∷◌ c s) = p (code c) && all_chars p s

abbrev pub is_digit : ℕ → Bool
is_digit c = leb b'0' c && leb c b'9'

abbrev pub is_lower_hex : ℕ → Bool
is_lower_hex c = is_digit c || (leb b'a' c && leb c b'f')

-- `c in s`
unfoldable pub has_char : ℕ → String → Bool
has_char p String.[] = false
has_char p (String.◌∷◌ c s) = code c == p || has_char p s

-- `c.isspace()`
unfoldable pub is_space : ℕ → Bool
is_space c =
    (leb 0x9 c && leb c 0xd)
    || (leb 0x1c c && leb c 0x20)
    || c == 0x85
    || c == 0xa0
    || c == 0x1680
    || (leb 0x2000 c && leb c 0x200a)
    || c == 0x2028
    || c == 0x2029
    || c == 0x202f
    || c == 0x205f
    || c == 0x3000

-- `s.lstrip()`
unfoldable pub lstrip : String → String
lstrip String.[] = ""
lstrip (String.◌∷◌ c s) = let rest = lstrip s in if is_space (code c) then rest else String.◌∷◌ c s

-- `s.rstrip()`
unfoldable pub rstrip : String → String
rstrip String.[] = ""
rstrip (String.◌∷◌ c s) =
    let rest = rstrip s in if str_eq rest "" && is_space (code c) then "" else String.◌∷◌ c rest

-- `s.strip()`
unfoldable pub strip : String → String
unfolding lstrip rstrip is_space
strip s = rstrip (lstrip s)

-- The first item of a split grows by a character.
abbrev pub onto_first : Char → List String → List String
onto_first c [] = []
onto_first c (x ∷ xs) = String.◌∷◌ c x ∷ xs

-- `s.split(sep)` for a one-character separator.
unfoldable pub split : ℕ → String → List String
split sep String.[] = "" ∷ []
split sep (String.◌∷◌ c s) =
    let rest = split sep s in if code c == sep then "" ∷ rest else onto_first c rest

-- `s.partition(sep)`; `none` where the separator is absent.
unfoldable pub partition : ℕ → String → Option (String × String)
partition sep String.[] = none
partition sep (String.◌∷◌ c s) =
    let rest = partition sep s in
    if code c == sep
    then some ("", s)
    else elim rest [ none ↦ none | some (l, r) ↦ some (String.◌∷◌ c l, r) ]

-- `s.rpartition(sep)`; `none` where the separator is absent.
unfoldable pub rpartition : ℕ → String → Option (String × String)
rpartition sep String.[] = none
rpartition sep (String.◌∷◌ c s) = elim (rpartition sep s) [
  | none ↦ if code c == sep then some ("", s) else none
  | some (l, r) ↦ some (String.◌∷◌ c l, r)
]

-- The longest prefix of ASCII digits, and the rest.
unfoldable pub span_digits : String → String × String
span_digits String.[] = ("", "")
span_digits (String.◌∷◌ c s) =
    let (d, r) = span_digits s in
    if is_digit (code c) then (String.◌∷◌ c d, r) else ("", String.◌∷◌ c s)

-- `re.fullmatch(r"[0-9]{lo,hi}", s)`
unfoldable pub is_digits : ℕ → ℕ → String → Bool
unfolding all_chars
is_digits lo hi s = all_chars is_digit s && leb lo (count s) && leb (count s) hi

-- The zeros of the decimal digits of Unicode, each the first of ten.
abbrev zeros : List ℕ
zeros =
    0x30 ∷ 0x660 ∷ 0x6f0 ∷ 0x7c0 ∷ 0x966 ∷ 0x9e6 ∷ 0xa66 ∷ 0xae6 ∷ 0xb66 ∷ 0xbe6 ∷ 0xc66 ∷ 0xce6
    ∷ 0xd66 ∷ 0xde6 ∷ 0xe50 ∷ 0xed0 ∷ 0xf20 ∷ 0x1040 ∷ 0x1090 ∷ 0x17e0 ∷ 0x1810 ∷ 0x1946 ∷ 0x19d0
    ∷ 0x1a80 ∷ 0x1a90 ∷ 0x1b50 ∷ 0x1bb0 ∷ 0x1c40 ∷ 0x1c50 ∷ 0xa620 ∷ 0xa8d0 ∷ 0xa900 ∷ 0xa9d0
    ∷ 0xa9f0 ∷ 0xaa50 ∷ 0xabf0 ∷ 0xff10 ∷ 0x104a0 ∷ 0x10d30 ∷ 0x11066 ∷ 0x110f0 ∷ 0x11136 ∷ 0x111d0
    ∷ 0x112f0 ∷ 0x11450 ∷ 0x114d0 ∷ 0x11650 ∷ 0x116c0 ∷ 0x11730 ∷ 0x118e0 ∷ 0x11950 ∷ 0x11c50
    ∷ 0x11d50 ∷ 0x11da0 ∷ 0x16a60 ∷ 0x16ac0 ∷ 0x16b50 ∷ 0x1d7ce ∷ 0x1d7d8 ∷ 0x1d7e2 ∷ 0x1d7ec
    ∷ 0x1d7f6 ∷ 0x1e140 ∷ 0x1e2f0 ∷ 0x1e950 ∷ 0x1fbf0 ∷ 0x11f50 ∷ 0x1e4f0 ∷ 0x10d40 ∷ 0x116d0
    ∷ 0x116da ∷ 0x11bf0 ∷ 0x1ccf0 ∷ 0x1e5f1 ∷ 0x16130 ∷ 0x16d70 ∷ []

-- `c.isdecimal()`
unfoldable pub is_decimal_in : ℕ → List ℕ → Bool
is_decimal_in c [] = false
is_decimal_in c (z ∷ zs) = (leb z c && leb c (z + 9)) || is_decimal_in c zs

-- `s.isdecimal()`
unfoldable pub is_decimal : String → Bool
unfolding all_chars is_decimal_in
is_decimal s = not (str_eq s "") && all_chars (λ c. is_decimal_in c zeros) s

-- The ASCII letters that a character case-folds to, where it folds to ASCII.
unfoldable pub fold_char : ℕ → ℕ
fold_char c =
    if leb b'A' c && leb c b'Z'
    then c + 32
    else if c == 0x17f
    then b's'
    else if c == 0x212a
    then b'k'
    else c

-- `s.casefold() == word`, for an ASCII word that no ligature folds into.
unfoldable pub folds_to : String → String → Bool
folds_to String.[] String.[] = true
folds_to (String.◌∷◌ c s) (String.◌∷◌ d w) = fold_char (code c) == code d && folds_to s w
folds_to _ _ = false

-- Equality that ignores the case of ASCII letters.
unfoldable pub equals_ignoring_case : String → String → Bool
equals_ignoring_case String.[] String.[] = true
equals_ignoring_case (String.◌∷◌ c s) (String.◌∷◌ d w) =
    (if leb b'A' (code c) && leb (code c) b'Z' then code c + 32 else code c) == code d
    && equals_ignoring_case s w
equals_ignoring_case _ _ = false

-- `a <= b` of texts, by code points.
abbrev pub text_leb : String → String → Bool
text_leb a b = elim (compare a b) [ Ordering.gt ↦ false | _ ↦ true ]

abbrev pub is_upper : ℕ → Bool
is_upper c = leb b'A' c && leb c b'Z'

-- `c.lower()` of an ASCII character.
unfoldable pub lower_char : Char → Char
lower_char c = if is_upper (code c) then char_at "abcdefghijklmnopqrstuvwxyz" (code c - b'A') else c

-- `s.lower()` of an ASCII text.
unfoldable pub lower : String → String
lower String.[] = ""
lower (String.◌∷◌ c s) = String.◌∷◌ (lower_char c) (lower s)

-- `s.isascii()`
unfoldable pub is_ascii : String → Bool
is_ascii s = all_chars (λ c. ltb c 128) s
