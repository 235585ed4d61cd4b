-- ===== src/Polls/Load.antt =====
-- `PollRegistry.load`: the registry that a store's contents give.
use home_assistant_whatsapp.Base.{
  Bool, List, Option, String, [], count, false, guard, if◌then◌else◌, leb, max, none, not, or_else,
  some, take_last, is_some, true, ℕ, ◌&&◌, ◌++◌, ◌+◌, ◌==◌, ◌>>=◌, ◌>>◌, ◌||◌, ◌∷◌,
}
use Prim.Native.Nat.{◌^◌}
use home_assistant_whatsapp.Base.Int.{natural?, negsuc, pos}
use home_assistant_whatsapp.Dict.{Dict, insert}
use home_assistant_whatsapp.Json.{
  Value, as_dict, as_int, as_list, as_str, get, dict, get_default, int, is_text, list, nil,
  nonempty, str,
}
use home_assistant_whatsapp.Polls.Receipts.{max_receipts, sequence_of, week}
use home_assistant_whatsapp.Polls.Storage.{from_storage, settle_of}
use home_assistant_whatsapp.Polls.Timestamp.{millionths_of}
use home_assistant_whatsapp.Polls.Types.{PendingPoll, Receipt, Registry, new_registry}

-- How the reading of one stored item ended: with an exception, with nothing or with a value.
pub data Read {ℓ} (A : Type ℓ) : Type ℓ where
  raised : Read A
  skipped : Read A
  parsed : A → Read A

abbrev pub read_of {ℓ} : {A : Type ℓ} → Option A → Read A
read_of none = skipped
read_of (some x) = parsed x

-- An `OverflowError` of `math.isfinite`: an integer that no float is near to.
unfoldable pub is_huge : Value → Bool
is_huge (int (pos n)) = leb (2 ^ 1024) (n + 2 ^ 970)
is_huge (int (negsuc n)) = leb (2 ^ 1024) (n + 1 + 2 ^ 970)
is_huge _ = false

-- A `TypeError` of `in {...}`.
unfoldable pub is_unhashable : Value → Bool
is_unhashable (list xs) = true
is_unhashable (dict fs) = true
is_unhashable _ = false

-- Whether `PendingPoll.from_dict` raises, by the order of its tests.
unfoldable pub is_raising : Dict Value → Bool
unfolding is_huge is_unhashable
is_raising d =
    is_some (nonempty (get "message_id" d))
    && is_some (nonempty (get "chat_id" d))
    && is_some (as_dict (get "options" d))
    && (is_huge (get "settle_seconds" d)
        || (is_some (settle_of (get "settle_seconds" d))
            && is_unhashable (get_default "origin" (str "automation") d)))

-- `PendingPoll.from_dict`, exceptions included.
unfoldable pub read_pending : Dict Value → Read PendingPoll
unfolding is_raising
read_pending d = if is_raising d then raised else read_of (from_storage d)

unfoldable pub read_poll : Value → Read PendingPoll
unfolding read_pending
read_poll v = elim (as_dict v) [ none ↦ skipped | some d ↦ read_pending d ]

-- The registry, and whether an exception went through: what was read before it stays.
pub record Loaded : Type 0 where
  pub registry : Registry
  pub raising : Bool

abbrev counted : Registry → Registry
counted g = record g { invalid_pending_records = g.invalid_pending_records + 1 }

-- The loop over the stored polls.
unfoldable pub load_polls : Registry → List Value → Loaded
load_polls g [] = record { registry = g; raising = false }
load_polls g (v ∷ vs) = elim (read_poll v) [
  | raised ↦ record { registry = g; raising = true }
  | skipped ↦ load_polls (counted g) vs
  | parsed p ↦ load_polls (record g { polls = insert p.message_id p g.polls }) vs
]

abbrev pub is_short_text : String → Bool
is_short_text s = leb 1 (count s) && leb (count s) 256

-- Every named field is a text of 1 to 256 characters.
unfoldable pub short_texts : List String → Dict Value → Bool
short_texts [] d = true
short_texts (k ∷ ks) d =
    elim (as_str (get k d)) [ none ↦ false | some s ↦ is_short_text s ] && short_texts ks d

-- `n in seen`
unfoldable pub is_seen : ℕ → List ℕ → Bool
is_seen n [] = false
is_seen n (m ∷ ms) = m == n || is_seen n ms

-- A saved time within a week before `now` and five minutes after.
unfoldable pub saved_time : ℕ → Value → Option ℕ
saved_time now v = do
  t ← millionths_of v
  guard (leb now (t + week) && leb t (now + 300000000))
  some t

-- The sequence number of a stored receipt.
unfoldable pub stored_sequence : List ℕ → Dict Value → Option ℕ
stored_sequence seen payload = do
  z ← as_int (get "selection_sequence" payload)
  n ← natural? z
  guard (leb 1 n && not (is_seen n seen))
  some n

-- The checks on one row of the journal, with its sequence number.
unfoldable pub load_receipt : ℕ → List ℕ → Value → Option (ℕ × Receipt)
load_receipt now seen v = do
  row ← as_dict v
  saved_at ← saved_time now (get "saved_at" row)
  payload ← as_dict (get "payload" row)
  guard (is_text "origin" "application" payload)
  guard (is_text "type" "poll.selection_settled" payload)
  n ← stored_sequence seen payload
  guard (
      short_texts
        ("conversation_id" ∷ "config_entry_id" ∷ "event_id" ∷ "client_request_id"
          ∷ "vote_occurred_at" ∷ [])
        payload)
  sender ← as_dict (get "sender" payload)
  poll ← as_dict (get "poll" payload)
  guard (short_texts ("message_id" ∷ "action_id" ∷ []) poll)
  some (n, record { payload = payload; saved_at = saved_at })

-- One row of the journal: its time is read before the other checks.
unfoldable pub read_receipt : ℕ → List ℕ → Value → Read (ℕ × Receipt)
read_receipt now seen v = elim (as_dict v) [
  | none ↦ skipped
  | some row ↦ if is_huge (get "saved_at" row) then raised else read_of (load_receipt now seen v)
]

-- The journal's loop over its rows.
unfoldable pub load_receipts : ℕ → List ℕ → Registry → List Value → Loaded
load_receipts now seen g [] = record { registry = g; raising = false }
load_receipts now seen g (v ∷ vs) = elim (read_receipt now seen v) [
  | raised ↦ record { registry = g; raising = true }
  | skipped ↦ load_receipts now seen g vs
  | parsed (n, r) ↦
      load_receipts now (n ∷ seen)
        (record g {
          selections = g.selections ++ r ∷ [];
          selection_sequence = max g.selection_sequence n;
        })
        vs
]

-- A stable sort by sequence number.
unfoldable pub insert_receipt : Receipt → List Receipt → List Receipt
insert_receipt r [] = r ∷ []
insert_receipt r (s ∷ ss) =
    if leb (sequence_of r.payload) (sequence_of s.payload)
    then r ∷ s ∷ ss
    else s ∷ insert_receipt r ss

unfoldable pub sort_receipts : List Receipt → List Receipt
unfolding insert_receipt
sort_receipts [] = []
sort_receipts (r ∷ rs) = insert_receipt r (sort_receipts rs)

-- `data.get("selection_sequence", 0)`, if it is a sequence.
unfoldable pub loaded_sequence : Dict Value → ℕ
loaded_sequence d =
    or_else (do z ← as_int (get_default "selection_sequence" (int (pos 0)) d); natural? z) 0

-- The rows of the journal, the last 2048 of them; `none` where they are no list.
unfoldable pub loaded_rows : Dict Value → Option (List Value)
loaded_rows d = do
  rows ← as_list (get_default "selections" (list nil) d)
  some (take_last max_receipts rows)

-- The sort that ends `load`, which an exception skips.
unfoldable pub sort_loaded : Loaded → Loaded
sort_loaded l = if l.raising then l else record l {
  registry = record l.registry { selections = sort_receipts l.registry.selections };
}

-- The journal of a store, once its polls are read.
unfoldable pub load_journal : Dict Value → ℕ → Registry → Loaded
load_journal d now g =
    let g' = record g { selection_sequence = loaded_sequence d } in
    elim (loaded_rows d) [
      | none ↦ record { registry = g'; raising = false }
      | some rows ↦ sort_loaded (load_receipts now [] g' rows)
    ]

-- What `load` makes of a list of polls and the rest of the store.
unfoldable pub load_stored : Dict Value → List Value → ℕ → Loaded
unfolding load_journal
load_stored d polls now =
    let l = load_polls new_registry polls in if l.raising then l else load_journal d now l.registry

-- `load`
unfoldable pub load : Value → ℕ → Loaded
unfolding load_stored
load stored now = elim (as_dict stored) [
  | none ↦ record { registry = new_registry; raising = false }
  | some d ↦ elim (as_list (get "polls" d)) [
    | none ↦ record { registry = new_registry; raising = false }
    | some polls ↦ load_stored d polls now
  ]
]
