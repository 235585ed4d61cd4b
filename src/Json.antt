-- ===== src/Json.antt =====
-- The values that `json.loads`, the webhook handlers and a private store hand to the code.
use home_assistant_whatsapp.Base.{
  ◌==◌, Bool, List, Option, String, [], ap, false, guard, none, not, refl, some, str_eq, ◌>>=◌,
  ◌>>◌, ◌∷◌, ◌≡◌,
}
use home_assistant_whatsapp.Base.Int.{pos, ℤ}
use home_assistant_whatsapp.Dict.{Dict, lookup}

-- A Python float: a finite one is a whole number of microseconds when it is a time.
pub data Float : Type 0 where
  finite : ℤ → Float
  nan inf neg_inf : Float

mutual
  pub data Value : Type 0 where
    null : Value
    bool : Bool → Value
    int : ℤ → Value
    float : Float → Value
    str : String → Value
    list : Items → Value
    dict : Fields → Value

  pub data Items : Type 0 where
    nil : Items
    cons : Value → Items → Items

  pub data Fields : Type 0 where
    end : Fields
    field : String → Value → Fields → Fields

unfoldable pub to_list : Items → List Value
to_list nil = []
to_list (cons x xs) = x ∷ to_list xs

unfoldable pub from_list : List Value → Items
from_list [] = nil
from_list (x ∷ xs) = cons x (from_list xs)

unfoldable pub to_dict : Fields → Dict Value
to_dict end = []
to_dict (field k v fs) = (k, v) ∷ to_dict fs

unfoldable pub from_dict : Dict Value → Fields
from_dict [] = end
from_dict ((k, v) ∷ d) = field k v (from_dict d)

pub to_list-from_list : (xs : List Value) → to_list (from_list xs) ≡ xs
unfolding to_list from_list
to_list-from_list [] = refl
to_list-from_list (x ∷ xs) = ap (◌∷◌ x) (to_list-from_list xs)

pub to_dict-from_dict : (d : Dict Value) → to_dict (from_dict d) ≡ d
unfolding to_dict from_dict
to_dict-from_dict [] = refl
to_dict-from_dict ((k, v) ∷ d) = ap (◌∷◌ (k, v)) (to_dict-from_dict d)

-- `isinstance(v, str)` and its kin: the value read at that type.
abbrev pub as_str : Value → Option String
as_str (str s) = some s
as_str _ = none

abbrev pub as_dict : Value → Option (Dict Value)
as_dict (dict fs) = some (to_dict fs)
as_dict _ = none

abbrev pub as_list : Value → Option (List Value)
as_list (list xs) = some (to_list xs)
as_list _ = none

abbrev pub as_bool : Value → Option Bool
as_bool (bool b) = some b
as_bool _ = none

-- `type(v) is int`, which a bool does not pass.
abbrev pub as_int : Value → Option ℤ
as_int (int n) = some n
as_int _ = none

-- `d.get(k)`, which is `None` on a missing key.
unfoldable pub get : String → Dict Value → Value
get k d = elim (lookup k d) [ none ↦ null | some v ↦ v ]

-- `d.get(k, default)`
unfoldable pub get_default : String → Value → Dict Value → Value
get_default k v d = elim (lookup k d) [ none ↦ v | some w ↦ w ]

-- An optional text as JSON: `None` or the text.
abbrev pub opt_str : Option String → Value
opt_str none = null
opt_str (some s) = str s

-- `d.get(k) == s`, for a text.
unfoldable pub is_text : String → String → Dict Value → Bool
is_text k s d = elim (as_str (get k d)) [ none ↦ false | some t ↦ str_eq t s ]

-- A text that is not empty.
unfoldable pub nonempty : Value → Option String
nonempty v = do s ← as_str v; guard (not (str_eq s "")); some s

-- `raw.get("version") != STORAGE_VERSION`, negated: the number 1, also as a float or as True.
unfoldable pub is_version : Value → Bool
is_version (int (pos n)) = n == 1
is_version (float (finite (pos n))) = n == 1000000
is_version (bool b) = b
is_version _ = false
