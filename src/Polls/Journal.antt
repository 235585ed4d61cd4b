-- ===== src/Polls/Journal.antt =====
-- The journal of application receipts that `remember_selection` writes.
use home_assistant_whatsapp.Base.{
  Bool, Bool-cases, List, [], arith, drop, inl, inr, keep, length, length-append,
  length-take_last-le, suc, take_last, zero, ℕ, ◌++◌, ◌+◌, ◌<◌, ◌∷◌, ◌≡◌, ◌≤◌,
}
use home_assistant_whatsapp.Base.Int.{pos}
use home_assistant_whatsapp.Dict.{Dict, insert, lookup-insert_self}
use home_assistant_whatsapp.Json.{Value, get_default, int}
use home_assistant_whatsapp.Polls.Receipts.{
  is_recent, max_receipts, remember_selection, sequence_of,
}
use home_assistant_whatsapp.Polls.Types.{Receipt, Registry}

abbrev pub sequence : Receipt → ℕ
sequence r = sequence_of r.payload

abbrev pub AllAbove : ℕ → List Receipt → Type 0
AllAbove n [] = Unit
AllAbove n (r ∷ rs) = (n < sequence r) × AllAbove n rs

abbrev pub AllUpTo : ℕ → List Receipt → Type 0
AllUpTo n [] = Unit
AllUpTo n (r ∷ rs) = (sequence r ≤ n) × AllUpTo n rs

abbrev pub IsAscending : List Receipt → Type 0
IsAscending [] = Unit
IsAscending (r ∷ rs) = AllAbove (sequence r) rs × IsAscending rs

pub record IsJournal (g : Registry) : Type 0 where
  pub ascending : IsAscending g.selections
  pub up_to : AllUpTo g.selection_sequence g.selections
  pub bounded : length g.selections ≤ max_receipts

pub AllAbove-le : (m n : ℕ) (rs : List Receipt) → m ≤ n → AllAbove n rs → AllAbove m rs
AllAbove-le m n [] h a = tt
AllAbove-le m n (r ∷ rs) h a = (omega arith, AllAbove-le m n rs h a.1)

AllUpTo-le : (m n : ℕ) (rs : List Receipt) → m ≤ n → AllUpTo m rs → AllUpTo n rs
AllUpTo-le m n [] h a = tt
AllUpTo-le m n (r ∷ rs) h a = (omega arith, AllUpTo-le m n rs h a.1)

module _ (p : Receipt → Bool) where
  pub keep-AllAbove : (n : ℕ) (rs : List Receipt) → AllAbove n rs → AllAbove n (keep p rs)
  unfolding keep
  keep-AllAbove n [] a = tt
  keep-AllAbove n (r ∷ rs) a = elim (Bool-cases (p r)) [
    | inl e ↦ rw e (a.0, keep-AllAbove n rs a.1)
    | inr e ↦ rw e (keep-AllAbove n rs a.1)
  ]

  pub keep-AllUpTo : (n : ℕ) (rs : List Receipt) → AllUpTo n rs → AllUpTo n (keep p rs)
  unfolding keep
  keep-AllUpTo n [] a = tt
  keep-AllUpTo n (r ∷ rs) a = elim (Bool-cases (p r)) [
    | inl e ↦ rw e (a.0, keep-AllUpTo n rs a.1)
    | inr e ↦ rw e (keep-AllUpTo n rs a.1)
  ]

  pub keep-IsAscending : (rs : List Receipt) → IsAscending rs → IsAscending (keep p rs)
  unfolding keep
  keep-IsAscending [] a = tt
  keep-IsAscending (r ∷ rs) a = elim (Bool-cases (p r)) [
    | inl e ↦ rw e (keep-AllAbove (sequence r) rs a.0, keep-IsAscending rs a.1)
    | inr e ↦ rw e (keep-IsAscending rs a.1)
  ]

drop-IsAscending : (n : ℕ) (rs : List Receipt) → IsAscending rs → IsAscending (drop n rs)
drop-IsAscending zero rs a = a
drop-IsAscending (suc n) [] a = tt
drop-IsAscending (suc n) (r ∷ rs) a = drop-IsAscending n rs a.1

drop-AllUpTo : (m n : ℕ) (rs : List Receipt) → AllUpTo n rs → AllUpTo n (drop m rs)
drop-AllUpTo zero n rs a = a
drop-AllUpTo (suc m) n [] a = tt
drop-AllUpTo (suc m) n (r ∷ rs) a = drop-AllUpTo m n rs a.1

append-AllAbove :
    (n : ℕ) (r : Receipt) (rs : List Receipt)
    → AllAbove n rs
    → n < sequence r
    → AllAbove n (rs ++ r ∷ [])
append-AllAbove n r [] a h = (h, tt)
append-AllAbove n r (s ∷ rs) a h = (a.0, append-AllAbove n r rs a.1 h)

append-IsAscending :
    (n : ℕ) (r : Receipt) (rs : List Receipt)
    → IsAscending rs
    → AllUpTo n rs
    → n < sequence r
    → IsAscending (rs ++ r ∷ [])
append-IsAscending n r [] a u h = (tt, tt)
append-IsAscending n r (s ∷ rs) a u h =
    (append-AllAbove (sequence s) r rs a.0 (omega arith), append-IsAscending n r rs a.1 u.1 h)

append-AllUpTo :
    (n : ℕ) (r : Receipt) (rs : List Receipt)
    → AllUpTo n rs
    → sequence r ≤ n
    → AllUpTo n (rs ++ r ∷ [])
append-AllUpTo n r [] u h = (h, tt)
append-AllUpTo n r (s ∷ rs) u h = (u.0, append-AllUpTo n r rs u.1 h)

sequence_of-insert :
    (n : ℕ) (payload : Dict Value)
    → sequence_of (insert "selection_sequence" (int (pos n)) payload) ≡ n
unfolding sequence_of get_default
sequence_of-insert n payload =
    ground (arith, lookup-insert_self "selection_sequence" (int (pos n)) payload)

-- Remembering a receipt keeps a journal strictly ascending, up to its counter, and within its 2048
-- receipts.
pub remember_selection-IsJournal :
    (g : Registry) (payload : Dict Value) (now saved_at : ℕ)
    → IsJournal g
    → IsJournal (remember_selection g payload now saved_at)
unfolding remember_selection
remember_selection-IsJournal g payload now saved_at v =
    let recent = keep (is_recent now) g.selections in
    let kept = take_last 2047 recent in
    let n = g.selection_sequence in
    let up : AllUpTo n kept =
      drop-AllUpTo _ n recent (keep-AllUpTo (is_recent now) n g.selections v.up_to) in
    record {
      ascending =
          append-IsAscending n _ kept
            (drop-IsAscending _ recent (keep-IsAscending (is_recent now) g.selections v.ascending))
            up (omega (arith, sequence_of-insert (n + 1) payload));
      up_to =
          append-AllUpTo (n + 1) _ kept (AllUpTo-le n (n + 1) kept (omega arith) up)
            (omega (arith, sequence_of-insert (n + 1) payload));
      bounded = rw (length-append kept _) (omega (arith, length-take_last-le 2047 recent));
    }
