-- ===== src/Correlated/Media.antt =====
-- `_valid_media_binding`: the bounded media extension of a ledger record.
use home_assistant_whatsapp.Base.{
  Bool, List, Option, String, [], all, contains, count, guard, is_distinct, leb, length, ltb, some,
  ℕ, ◌&&◌, ◌*◌, ◌==◌, ◌>>=◌, ◌>>◌, ◌∷◌,
}
use home_assistant_whatsapp.Base.Int.{natural?, pos}
use home_assistant_whatsapp.Correlated.Types.{Media, max_upload_tokens}
use home_assistant_whatsapp.Dict.{Dict, keys}
use home_assistant_whatsapp.Json.{
  Value, as_bool, as_dict, as_int, as_list, as_str, bool, dict, from_dict, from_list, get, int,
  list, str,
}
use home_assistant_whatsapp.Text.{all_chars, is_lower_hex}

-- `_DIGEST.fullmatch(s)`
unfoldable pub is_digest : String → Bool
is_digest s = count s == 64 && all_chars is_lower_hex s

-- `set(d) == set(names)`
unfoldable pub has_keys : List String → Dict Value → Bool
has_keys names d = all (λ k. contains k names) (keys d) && all (λ k. contains k (keys d)) names

-- Every item is a text.
unfoldable pub all_str : List Value → Option (List String)
all_str [] = some []
all_str (v ∷ vs) = do s ← as_str v; ss ← all_str vs; some (s ∷ ss)

abbrev pub media_keys : List String
media_keys =
    "upload_tokens" ∷ "principal_token" ∷ "sha256" ∷ "size_bytes" ∷ "kind" ∷ "mime_type"
    ∷ "native_opus" ∷ "file_name_digest" ∷ "route_binding_digest" ∷ []

abbrev pub max_media_bytes : ℕ
max_media_bytes = 25 * 1024 * 1024

-- A text under a key that is a digest.
unfoldable pub digest_at : String → Dict Value → Option String
digest_at k d = do s ← as_str (get k d); guard (is_digest s); some s

-- The binding that a valid value holds; `none` where `_valid_media_binding` is false.
unfoldable pub media_of : Value → Option Media
media_of v = do
  d ← as_dict v
  guard (has_keys media_keys d)
  items ← as_list (get "upload_tokens" d)
  guard (leb 1 (length items) && leb (length items) max_upload_tokens)
  tokens ← all_str items
  guard (all is_digest tokens && is_distinct tokens)
  principal_token ← digest_at "principal_token" d
  sha256 ← digest_at "sha256" d
  file_name_digest ← digest_at "file_name_digest" d
  route_binding_digest ← digest_at "route_binding_digest" d
  size ← as_int (get "size_bytes" d)
  size_bytes ← natural? size
  guard (ltb 0 size_bytes && leb size_bytes max_media_bytes)
  kind ← as_str (get "kind" d)
  guard (contains kind ("audio" ∷ "image" ∷ "file" ∷ []))
  mime_type ← as_str (get "mime_type" d)
  guard (leb 1 (count mime_type) && leb (count mime_type) 128)
  native_opus ← as_bool (get "native_opus" d)
  some (record {
    upload_tokens = tokens;
    principal_token = principal_token;
    sha256 = sha256;
    size_bytes = size_bytes;
    kind = kind;
    mime_type = mime_type;
    native_opus = native_opus;
    file_name_digest = file_name_digest;
    route_binding_digest = route_binding_digest;
  })

unfoldable pub str_items : List String → List Value
str_items [] = []
str_items (s ∷ ss) = str s ∷ str_items ss

-- The binding as the ledger stores it.
unfoldable pub media_value : Media → Value
media_value b = dict (
    from_dict (
      ("upload_tokens", list (from_list (str_items b.upload_tokens)))
      ∷ ("principal_token", str b.principal_token)
      ∷ ("sha256", str b.sha256)
      ∷ ("size_bytes", int (pos b.size_bytes))
      ∷ ("kind", str b.kind)
      ∷ ("mime_type", str b.mime_type)
      ∷ ("native_opus", bool b.native_opus)
      ∷ ("file_name_digest", str b.file_name_digest)
      ∷ ("route_binding_digest", str b.route_binding_digest)
      ∷ []))
