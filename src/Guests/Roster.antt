-- ===== src/Guests/Roster.antt =====
-- Identities in a roster: `_alias_owner`, `_member`, `_resolve_identity` and `_prune`.
use home_assistant_whatsapp.Base.{
  Bool, List, Option, String, [], contains, drop, false, guard, if◌then◌else◌, leb, ltb, none,
  or_else, some, str_eq, take, true, ℕ, ◌&&◌, ◌*◌, ◌++◌, ◌+◌, ◌>>=◌, ◌>>◌, ◌∷◌,
}
use home_assistant_whatsapp.Dict.{Dict, erase, insert, lookup}
use home_assistant_whatsapp.Guests.Identity.{fresh_id, jid}
use home_assistant_whatsapp.Guests.Types.{GuestData, Membership, active, is_active, left}
use home_assistant_whatsapp.Text.{text_leb}

-- `_alias_owner`
unfoldable pub alias_owner : String → Dict (List String) → Option String
alias_owner alias [] = none
alias_owner alias ((i, aliases) ∷ ps) =
    if contains alias aliases then some i else alias_owner alias ps

-- `_member`
unfoldable pub member_of : String → Dict Membership → Option (String × Membership)
member_of i [] = none
member_of i ((k, m) ∷ ms) =
    if str_eq m.participant_id i && is_active m.status then some (k, m) else member_of i ms

-- The canonical forms of all aliases.
unfoldable pub jids : List String → Option (List String)
jids [] = some []
jids (a ∷ aliases) = do j ← jid a; js ← jids aliases; some (j ∷ js)

-- The set of the participants that own an alias.
unfoldable pub owners_of : List String → Dict (List String) → List String
owners_of [] ps = []
owners_of (a ∷ aliases) ps =
    let rest = owners_of aliases ps in
    elim (alias_owner a ps) [ none ↦ rest | some o ↦ if contains o rest then rest else o ∷ rest ]

-- The texts of a list without repetition, as a set has them.
unfoldable pub text_set : List String → List String
text_set [] = []
text_set (x ∷ xs) = let rest = text_set xs in if contains x rest then rest else x ∷ rest

-- `sorted`, by insertion.
unfoldable pub insert_text : String → List String → List String
insert_text s [] = s ∷ []
insert_text s (x ∷ xs) =
    let rest = insert_text s xs in if text_leb s x then s ∷ x ∷ xs else x ∷ rest

unfoldable pub sort_texts : List String → List String
unfolding insert_text
sort_texts [] = []
sort_texts (x ∷ xs) = insert_text x (sort_texts xs)

-- `sorted` of a set of texts.
unfoldable pub sorted_set : List String → List String
unfolding text_set sort_texts
sorted_set xs = sort_texts (text_set xs)

-- The participants after an identity was resolved, its id, and the number of the next `uuid4`.
pub record Resolved : Type 0 where
  pub participants : Dict (List String)
  pub participant_id : String
  pub next_id : ℕ

abbrev pub owned : Dict (List String) → String → List String → ℕ → Resolved
owned ps i aliases n = record {
  participants = insert i (sorted_set (or_else (lookup i ps) [] ++ aliases)) ps;
  participant_id = i;
  next_id = n;
}

-- The identity that canonical aliases name.
unfoldable pub resolve_jids :
    (ℕ → String) → ℕ → Dict (List String) → List String → List String → Option Resolved
resolve_jids uuid n ps aliases [] = some (owned ps (fresh_id uuid "participant" n) aliases (n + 1))
resolve_jids uuid n ps aliases (o ∷ []) = some (owned ps o aliases n)
resolve_jids uuid n ps aliases (o ∷ p ∷ os) = none

abbrev pub has_items : List String → Bool
has_items [] = false
has_items (s ∷ ss) = true

-- `_resolve_identity`
unfoldable pub resolve_identity_of :
    (ℕ → String) → ℕ → Dict (List String) → List String → Option Resolved
resolve_identity_of uuid n ps aliases = do
  js ← jids aliases
  guard (has_items js)
  resolve_jids uuid n ps js (owners_of js ps)

abbrev pub closed_retention : ℕ
closed_retention = 180 * 24 * 60 * 60 * 1000000

abbrev pub max_closed_memberships : ℕ
max_closed_memberships = 512

-- The time at which a membership was left.
abbrev pub left_at : Membership → Option ℕ
left_at m = elim m.status [ active ↦ none | left t ↦ some t ]

-- The closed memberships by the time they were left, the latest first; a stable sort.
unfoldable pub insert_closed : String → ℕ → List (String × ℕ) → List (String × ℕ)
insert_closed k t [] = (k, t) ∷ []
insert_closed k t ((j, u) ∷ cs) =
    let rest = insert_closed k t cs in if leb u t then (k, t) ∷ (j, u) ∷ cs else (j, u) ∷ rest

unfoldable pub closed_memberships : Dict Membership → List (String × ℕ)
unfolding insert_closed
closed_memberships [] = []
closed_memberships ((k, m) ∷ ms) =
    let rest = closed_memberships ms in
    elim (left_at m) [ none ↦ rest | some t ↦ insert_closed k t rest ]

unfoldable pub erase_all : List (String × ℕ) → Dict Membership → Dict Membership
erase_all [] ms = ms
erase_all ((k, t) ∷ cs) ms = erase_all cs (erase k ms)

-- `ended_at < now - CLOSED_RETENTION_SECONDS`
unfoldable pub expired : ℕ → List (String × ℕ) → List (String × ℕ)
expired now [] = []
expired now ((k, t) ∷ cs) =
    let rest = expired now cs in if ltb (t + closed_retention) now then (k, t) ∷ rest else rest

unfoldable pub member_ids : Dict Membership → List String
member_ids [] = []
member_ids ((k, m) ∷ ms) = m.participant_id ∷ member_ids ms

unfoldable pub retained_participants : List String → Dict (List String) → Dict (List String)
retained_participants ids [] = []
retained_participants ids ((i, aliases) ∷ ps) =
    let rest = retained_participants ids ps in if contains i ids then (i, aliases) ∷ rest else rest

unfoldable pub pruned_memberships : ℕ → Dict Membership → Dict Membership
pruned_memberships now ms =
    let closed = closed_memberships ms in
    erase_all (expired now (take max_closed_memberships closed))
      (erase_all (drop max_closed_memberships closed) ms)

-- `_prune`
unfoldable pub prune_data : GuestData → ℕ → GuestData
prune_data d now =
    let ms = pruned_memberships now d.memberships in
    record d {
      memberships = ms;
      participants = retained_participants (member_ids ms) d.participants;
    }
