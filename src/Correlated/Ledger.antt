-- ===== src/Correlated/Ledger.antt =====
-- The ledger of a `CorrelatedSendManager`: retention, storage bounds, lookups and diagnostics.
use Prim.Native.Char.{nul}
use home_assistant_whatsapp.Base.{
  Bool, Option, String, [], concat, contains, count, false, guard, if◌then◌else◌, leb, length, ltb,
  none, not, some, str_eq, true, ℕ, ◌&&◌, ◌+◌, ◌==◌, ◌>>=◌, ◌>>◌, ◌||◌, ◌∷◌,
}
use home_assistant_whatsapp.Base.Int.{negsuc, pos, ℤ}
use home_assistant_whatsapp.Correlated.Media.{media_value}
use home_assistant_whatsapp.Correlated.Types.{
  Code, Config, Manager, Media, Record, Status, code_name, idempotency_retention,
  max_client_request_id_length, max_idempotency_records, max_idempotency_storage_bytes, pending,
  persistence_unavailable, status_name, unknown,
}
use home_assistant_whatsapp.Dict.{Dict, count_values, filter_values, lookup, map_values}
use home_assistant_whatsapp.Json.{
  Value, dict, finite, float, from_dict, from_list, int, list, null, opt_str, str,
}

-- Whether the outcome of the send is still open.
abbrev pub is_open : Status → Bool
is_open pending = true
is_open unknown = true
is_open _ = false

-- `created_at + IDEMPOTENCY_RETENTION_SECONDS > now`
unfoldable pub is_retained : ℤ → ℕ → Bool
is_retained (pos t) now = ltb now (t + idempotency_retention)
is_retained (negsuc t) now = ltb (now + t + 1) idempotency_retention

-- What `_prune` keeps.
unfoldable pub is_kept : ℕ → Record → Bool
unfolding is_retained
is_kept now r = is_open r.status || is_retained r.created_at now

-- `_prune`
unfoldable pub prune : ℕ → Manager → Manager
prune now m = record m { records = filter_values (is_kept now) m.records }

-- The result of `_prune`: whether a record was dropped.
unfoldable pub prune_changes : ℕ → Manager → Bool
prune_changes now m = not (length (filter_values (is_kept now) m.records) == length m.records)

abbrev pub opt_code : Option Code → Value
opt_code none = null
opt_code (some c) = str (code_name c)

abbrev media_field : Option Media → Dict Value
media_field none = []
media_field (some b) = ("media", media_value b) ∷ []

-- A record as the ledger stores it.
unfoldable pub record_value : Record → Value
record_value r = dict (
    from_dict (
      ("digest", str r.digest)
      ∷ ("created_at", float (finite r.created_at))
      ∷ ("status", str (status_name r.status))
      ∷ ("message_id", opt_str r.message_id)
      ∷ ("error_code", opt_code r.error_code)
      ∷ media_field r.media))

-- `_snapshot`
unfoldable pub snapshot : Dict Record → Value
snapshot records =
    dict (from_dict (("records", dict (from_dict (map_values record_value records))) ∷ []))

-- A record with the worst outcome that may still be written into it.
unfoldable pub reserve : String → Record → Record
reserve widest r =
    if is_open r.status
    then record r { message_id = some widest; error_code = some persistence_unavailable }
    else r

-- `"\x00" * n`
unfoldable pub nul_text : ℕ → String
nul_text ℕ.zero = ""
nul_text (ℕ.suc n) = String.◌∷◌ nul (nul_text n)

module _ (c : Config) where
  -- `_storage_size`
  unfoldable pub storage_size : Value → Option ℕ
  storage_size body = c.json_size (
      dict (
        from_dict (
          ("version", int (pos 1))
          ∷ ("minor_version", int (pos 1))
          ∷ ("key", str (concat "waha_whatsapp.correlated." c.entry_id))
          ∷ ("data", body)
          ∷ [])))

  -- A value whose envelope encodes within the limit.
  unfoldable pub size_fits : Value → Bool
  size_fits body = elim (storage_size body) [
    | none ↦ false
    | some n ↦ leb n max_idempotency_storage_bytes
  ]

  -- `_fits`. Where the ledger has no JSON size, because a text of it cannot be encoded, the code's
  -- exception would leave the method with the record in place; here such a ledger does not fit.
  unfoldable pub fits : Dict Record → Bool
  fits records =
      let reserved = map_values (reserve (nul_text 256)) records in
      leb (length reserved) max_idempotency_records && size_fits (snapshot reserved)

  -- `_request_token`
  unfoldable pub request_token : String → String → Option String
  request_token conversation client =
      c.json_digest (list (from_list (str c.entry_id ∷ str conversation ∷ str client ∷ [])))

  -- The guards on a request's identity.
  unfoldable pub is_request : String → String → Bool
  is_request conversation client =
      not (str_eq conversation "")
      && not (str_eq client "")
      && leb (count client) max_client_request_id_length

  -- `owns_request`
  unfoldable pub owns_request : Manager → String → String → ℕ → Bool
  owns_request m conversation client now =
      if is_request conversation client
      then elim (request_token conversation client) [
        | none ↦ false
        | some token ↦ elim (lookup token m.records) [
          | none ↦ false
          | some r ↦ is_open r.status || is_retained r.created_at now
        ]
      ]
      else false

  -- `media_binding`: the pruned manager, and the retained facts of a bound upload.
  unfoldable pub media_binding :
      Manager → String → String → String → String → ℕ → Manager × Option Media
  media_binding m conversation client upload principal now =
      let m' = prune now m in
      (
        m',
        (do
          token ← request_token conversation client
          r ← lookup token m'.records
          b ← r.media
          guard (str_eq b.principal_token principal && contains upload b.upload_tokens)
          some b),
      )

pub data Health : Type 0 where
  ready degraded unavailable : Health

abbrev is_unknown : Record → Bool
is_unknown r = elim r.status [ unknown ↦ true | _ ↦ false ]

-- The `health` of `diagnostics`.
unfoldable pub health : Manager → Health
health m =
    if not m.persistence_available
    then unavailable
    else if m.capacity_exhausted || ltb 0 (count_values is_unknown m.records)
    then degraded
    else ready
