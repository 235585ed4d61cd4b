-- ===== src/Polls/Receipts.antt =====
-- The journal of application receipts: `remember_selection` and `selections`.
use home_assistant_whatsapp.Base.{
  Bool, List, Option, String, [], if◌then◌else◌, keep, leb, length, ltb, none, or_else, some, take,
  take_last, ℕ, ◌&&◌, ◌*◌, ◌++◌, ◌+◌, ◌∷◌,
}
use home_assistant_whatsapp.Base.Int.{natural?, pos}
use home_assistant_whatsapp.Dict.{Dict, insert}
use home_assistant_whatsapp.Json.{Value, get_default, int, is_text}
use home_assistant_whatsapp.Polls.Types.{Receipt, Registry}

abbrev pub week : ℕ
week = 7 * 86400 * 1000000

abbrev pub max_receipts : ℕ
max_receipts = 2048

-- `payload.get("selection_sequence", 0)` of a receipt in the journal, whose value is an integer.
unfoldable pub sequence_of : Dict Value → ℕ
sequence_of payload = elim (get_default "selection_sequence" (int (pos 0)) payload) [
  | int n ↦ or_else (natural? n) 0
  | _ ↦ 0
]

-- `saved_at >= now - 7 * 86400`
abbrev pub is_recent : ℕ → Receipt → Bool
is_recent now r = leb now (r.saved_at + week)

-- `remember_selection`; `now` and `saved_at` are its two readings of the clock.
unfoldable pub remember_selection : Registry → Dict Value → ℕ → ℕ → Registry
remember_selection g payload now saved_at =
    let n = g.selection_sequence + 1 in
    let r : Receipt = record {
      payload = insert "selection_sequence" (int (pos n)) payload;
      saved_at = saved_at;
    } in
    record g {
      selection_sequence = n;
      selections = take_last 2047 (keep (is_recent now) g.selections) ++ r ∷ [];
    }

pub record Page : Type 0 where
  pub events : List (Dict Value)
  pub has_more : Bool
  pub next_sequence : ℕ

-- The rows that a page is cut from.
unfoldable pub is_row : String → ℕ → ℕ → Receipt → Bool
is_row conversation_id after now r =
    is_recent now r
    && is_text "conversation_id" conversation_id r.payload
    && ltb after (sequence_of r.payload)

unfoldable pub payloads : List Receipt → List (Dict Value)
payloads [] = []
payloads (r ∷ rs) = r.payload ∷ payloads rs

-- `page[-1]["selection_sequence"] if page else default`
unfoldable pub last_sequence : ℕ → List (Dict Value) → ℕ
last_sequence default [] = default
last_sequence default (p ∷ []) = sequence_of p
last_sequence default (p ∷ q ∷ ps) = last_sequence default (q ∷ ps)

-- `selections`, after its guards; `none` is a `PollValidationError`.
unfoldable pub selections : Registry → String → ℕ → ℕ → ℕ → Option Page
selections g conversation_id after limit now =
    let rows = payloads (keep (is_row conversation_id after now) g.selections) in
    let page = take limit rows in
    if leb 1 limit && leb limit 100
    then some (record {
      events = page;
      has_more = ltb limit (length rows);
      next_sequence = last_sequence g.selection_sequence page;
    })
    else none
