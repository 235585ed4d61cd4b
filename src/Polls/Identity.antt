-- ===== src/Polls/Identity.antt =====
-- Message and chat identities: `canonical_message_id`, `_same_chat_id`, `_direct_phone_chat_id`,
-- and WhatsApp LIDs.
use home_assistant_whatsapp.Base.{
  Bool, List, Option, String, [], code, concat, count, false, if◌then◌else◌, leb, none, not, some,
  str_eq, ◌&&◌, ◌==◌, ◌||◌, ◌∷◌,
}
use home_assistant_whatsapp.Text.{
  equals_ignoring_case, folds_to, has_char, is_decimal, partition, rpartition, span_digits, split,
}

-- A serialized id is recognised by its first three parts.
unfoldable pub is_serialized : String → String → String → Bool
is_serialized sent chat token =
    (folds_to sent "true" || folds_to sent "false") && has_char b'@' chat && not (str_eq token "")

unfoldable pub canonical_of : String → List String → String
unfolding is_serialized
canonical_of whole (a ∷ b ∷ t ∷ []) = if is_serialized a b t then t else whole
canonical_of whole (a ∷ b ∷ t ∷ d ∷ []) = if is_serialized a b t then t else whole
canonical_of whole _ = whole

-- `canonical_message_id`
unfoldable pub canonical_message_id : String → String
canonical_message_id s = canonical_of s (split b'_' s)

-- What follows the number: an optional device, and one of the two phone domains.
unfoldable pub is_phone_domain : String → Bool
is_phone_domain s = equals_ignoring_case s "@c.us" || equals_ignoring_case s "@s.whatsapp.net"

unfoldable pub is_phone_suffix : String → Bool
unfolding is_phone_domain
is_phone_suffix String.[] = false
is_phone_suffix (String.◌∷◌ c s) =
    let (device, domain) = span_digits s in
    if code c == b':'
    then not (str_eq device "") && is_phone_domain domain
    else is_phone_domain (String.◌∷◌ c s)

-- `_direct_phone_chat_id`
unfoldable pub direct_phone_chat_id : String → Option String
direct_phone_chat_id value =
    let (number, suffix) = span_digits value in
    if leb (count value) 256
      && leb 7 (count number)
      && leb (count number) 15
      && is_phone_suffix suffix
    then some (concat number "@c.us")
    else none

-- `_same_chat_id`
unfoldable pub same_chat_id : String → String → Bool
same_chat_id left right = elim (direct_phone_chat_id left) [
  | none ↦ false
  | some l ↦ elim (direct_phone_chat_id right) [ none ↦ false | some r ↦ str_eq l r ]
]

-- The part of `is_lid_chat_id` before the domain.
unfoldable pub is_lid_local : String → Bool
is_lid_local local = elim (partition b':' local) [
  | none ↦ is_decimal local
  | some (account, device) ↦ is_decimal account && is_decimal device && not (has_char b':' device)
]

-- `is_lid_chat_id`
unfoldable pub is_lid_chat_id : String → Bool
is_lid_chat_id value = elim (rpartition b'@' value) [
  | none ↦ false
  | some (local, domain) ↦ folds_to domain "lid" && is_lid_local local
]

-- `value.rpartition("@")[0]`, and the account of such a local part.
unfoldable pub local_part : String → String
local_part value = elim (rpartition b'@' value) [ none ↦ "" | some (l, d) ↦ l ]

unfoldable pub account_part : String → String
account_part local = elim (partition b':' local) [ none ↦ local | some (account, d) ↦ account ]

-- `lid_mapping_id`
unfoldable pub lid_mapping_id : String → String
unfolding local_part account_part
lid_mapping_id value = concat (account_part (local_part value)) "@lid"
