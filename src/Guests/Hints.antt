-- ===== src/Guests/Hints.antt =====
-- The event hints of `async_reconcile`, and what they say of a change.
use home_assistant_whatsapp.Base.{
  Bool, List, Option, String, [], false, guard, if◌then◌else◌, is_some, ltb, none, not, some,
  str_eq, ℕ, ◌&&◌, ◌>>=◌, ◌>>◌, ◌||◌, ◌∷◌,
}
use home_assistant_whatsapp.Dict.{Dict, insert, lookup}
use home_assistant_whatsapp.Guests.Identity.{jid}
use home_assistant_whatsapp.Guests.Types.{Source, reconciliation, webhook}
use home_assistant_whatsapp.Polls.Load.{is_seen}

pub data HintType : Type 0 where
  join leave promote demote : HintType

abbrev pub hint_name : HintType → String
hint_name join = "join"
hint_name leave = "leave"
hint_name promote = "promote"
hint_name demote = "demote"

-- An authenticated participant change; a type that is none of the four is absent.
pub record Hint : Type 0 where
  pub type : Option HintType
  pub alias : String
  pub occurred_at : ℕ

-- Whether a time is before a previous one.
abbrev pub is_before : ℕ → Option ℕ → Bool
is_before t none = false
is_before t (some u) = ltb t u

-- A hint that is valid, with its canonical alias.
unfoldable pub hint_of : Hint → Option (String × HintType × ℕ)
hint_of h = do
  type ← h.type
  alias ← jid h.alias
  guard (ltb 0 h.occurred_at)
  some (alias, type, h.occurred_at)

-- The loop over the hints.
unfoldable pub collect_hints :
    Option ℕ → ℕ → Dict (HintType × ℕ) → List Hint → Option (Dict (HintType × ℕ))
collect_hints previous when hints [] = some hints
collect_hints previous when hints (h ∷ hs) = elim (hint_of h) [
  | none ↦ none
  | some (alias, type, occurred) ↦
      let skip = collect_hints previous when hints hs in
      let more = collect_hints previous when (insert alias (type, occurred) hints) hs in
      if is_before occurred previous
      then skip
      else if is_some (lookup alias hints) || ltb when occurred
      then none
      else more
]

-- The times of the matching hints, as a set.
unfoldable pub matching_times : Dict (HintType × ℕ) → HintType → List String → List ℕ
matching_times hints expected [] = []
matching_times hints expected (a ∷ aliases) =
    let rest = matching_times hints expected aliases in
    elim (lookup a hints) [
      | none ↦ rest
      | some (type, t) ↦
          if str_eq (hint_name type) (hint_name expected) && not (is_seen t rest)
          then t ∷ rest
          else rest
    ]

abbrev pub only_time : List ℕ → Source × Option ℕ
only_time [] = (reconciliation, none)
only_time (t ∷ []) = (webhook, some t)
only_time (t ∷ u ∷ ts) = (reconciliation, none)

-- `provenance`
unfoldable pub provenance :
    Option ℕ → Dict (HintType × ℕ) → List String → HintType → Source × Option ℕ
unfolding matching_times
provenance none hints aliases expected = (reconciliation, none)
provenance (some previous) hints aliases expected =
    only_time (matching_times hints expected aliases)
